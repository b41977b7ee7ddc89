-- ===== src/Setup/Created.antt =====
-- Creating the znodes of a group, each under its parent.
use ua_rate_throttling.Common.{
  ◌≡◌, ◌≢◌, ◌<◌, ◌∙◌, refl, ap, sym, Bool, true, false, none, some, Option, Bytes, codes, ◌++◌,
  length, if◌then◌else◌, arith, Bool-cases, inl, inr, [], subst,
}
use ua_rate_throttling.Queue.Documented.{same, same→eq, same_refl}
use ua_rate_throttling.Znode.{Globals, get_active_path}
use ua_rate_throttling.Zoo.{is_zok}
use ua_rate_throttling.Setup.{create_group, create_paths, find_or_create}
use ua_rate_throttling.Setup.Libraries.{ZooClient}
use ua_rate_throttling.Setup.Documented.{Documented, IsName, settled, is_node}

module _ (z : ZooClient) (d : Documented z) where
  -- `t'` is `t` with a znode at `p`.
  abbrev pub Grown : Bytes → Bool → z.Tree → z.Tree → Type 0
  Grown p ephemeral t t' =
      (q : Bytes) → d.kind t' q ≡ (if same p q then settled (d.kind t p) ephemeral else d.kind t q)

  -- No znode of `t` has changed in `t'`.
  abbrev pub Kept : z.Tree → z.Tree → Type 0
  Kept t t' = (q : Bytes) → is_node (d.kind t q) ≡ true → d.kind t' q ≡ d.kind t q

  settled-there : (k : Option Bool) (e : Bool) → is_node k ≡ true → settled k e ≡ k
  settled-there none e there = absurd cc
  settled-there (some before) e there = refl

  pub Grown-Kept : (p : Bytes) (e : Bool) (t t' : z.Tree) → Grown p e t t' → Kept t t'
  Grown-Kept p e t t' grown q there = elim (Bool-cases (same p q)) [
    | inl hit ↦
        let k : d.kind t p ≡ d.kind t q = ap (d.kind t) (same→eq p q hit) in
        grown q ∙ rw (hit, k) (settled-there (d.kind t q) e there)
    | inr miss ↦ grown q ∙ (rw miss)
  ]

  pub Grown-at :
      (p : Bytes) (e : Bool) (t t' : z.Tree) → Grown p e t t' → d.kind t' p ≡ settled (d.kind t p) e
  Grown-at p e t t' grown = grown p ∙ (rw (same_refl p))

  pub Grown-longer :
      (p : Bytes) (e : Bool) (t t' : z.Tree) (q : Bytes)
      → Grown p e t t'
      → length p < length q
      → d.kind t' q ≡ d.kind t q
  Grown-longer p e t t' q grown longer = elim (Bool-cases (same p q)) [
    | inl hit ↦ absurd (omega (arith, longer, ap length (same→eq p q hit)))
    | inr miss ↦ grown q ∙ (rw miss)
  ]

  settled-permanent : (k : Option Bool) → k ≢ some true → settled k false ≡ some false
  settled-permanent none free = refl
  settled-permanent (some true) free = absurd (free refl)
  settled-permanent (some false) free = refl

  pub Grown-permanent :
      (p : Bytes) (t t' : z.Tree)
      → Grown p false t t'
      → d.kind t p ≢ some true
      → d.kind t' p ≡ some false
  Grown-permanent p t t' grown free =
      Grown-at p false t t' grown ∙ settled-permanent (d.kind t p) free

  -- A create of a permanent znode makes no ephemeral one.
  pub Grown-free :
      (p : Bytes) (t t' : z.Tree) (q : Bytes)
      → Grown p false t t'
      → d.kind t q ≢ some true
      → d.kind t' q ≢ some true
  Grown-free p t t' q grown free e = elim (Bool-cases (same p q)) [
    | inl hit ↦
        let same_path : p ≡ q = same→eq p q hit in
        let free_at : d.kind t p ≢ some true = λ k. free (sym (ap (d.kind t) same_path) ∙ k) in
        let permanent : d.kind t' q ≡ some false =
          sym (ap (d.kind t') same_path) ∙ Grown-permanent p t t' grown free_at in
        cc (e, permanent)
    | inr miss ↦ free (sym (grown q ∙ (rw miss)) ∙ e)
  ]

  -- The znodes at three paths, the second and the third below the first.
  pub record Group (servers group active queue : Bytes) (t t' : z.Tree) : Type 0 where
    pub active_permanent : d.kind t' active ≡ some false
    pub queue_permanent : d.kind t' queue ≡ some false
    pub keeps : Kept t t'
    -- No ephemeral znode is new, and nothing is new at a longer path.
    pub frees : (q : Bytes) → d.kind t q ≢ some true → d.kind t' q ≢ some true
    pub longer :
        (q : Bytes)
        → length servers < length q
        → length group < length q
        → length active < length q
        → length queue < length q
        → d.kind t' q ≡ d.kind t q

  pub Kept-permanent :
      (t t' : z.Tree) (p : Bytes) → Kept t t' → d.kind t p ≡ some false → d.kind t' p ≡ some false
  Kept-permanent t t' p kept k = kept p (ap is_node k) ∙ k

  pub Kept-trans : (t t' t'' : z.Tree) → Kept t t' → Kept t' t'' → Kept t t''
  Kept-trans t t' t'' first second q there =
      second q (ap is_node (first q there) ∙ there) ∙ first q there

  pub four-Group :
      (servers group active queue : Bytes) (t t1 t2 t3 t4 : z.Tree)
      → Grown servers false t t1
      → Grown group false t1 t2
      → Grown active false t2 t3
      → Grown queue false t3 t4
      → d.kind t active ≢ some true
      → d.kind t queue ≢ some true
      → Group servers group active queue t t4
  four-Group servers group active queue t t1 t2 t3 t4 s1 s2 s3 s4 free_active free_queue =
      let k4 = Grown-Kept queue false t3 t4 s4 in
      let f2 : ((q : Bytes) → d.kind t q ≢ some true → d.kind t2 q ≢ some true) =
        λ q f. Grown-free group t1 t2 q s2 (Grown-free servers t t1 q s1 f) in
      let f3 : ((q : Bytes) → d.kind t q ≢ some true → d.kind t3 q ≢ some true) =
        λ q f. Grown-free active t2 t3 q s3 (f2 q f) in
      record {
        active_permanent =
            Kept-permanent t3 t4 active k4
              (Grown-permanent active t2 t3 s3 (f2 active free_active));
        queue_permanent = Grown-permanent queue t3 t4 s4 (f3 queue free_queue);
        keeps =
            Kept-trans t t3 t4
              (Kept-trans t t2 t3
                (Kept-trans t t1 t2 (Grown-Kept servers false t t1 s1)
                  (Grown-Kept group false t1 t2 s2))
                (Grown-Kept active false t2 t3 s3))
              k4;
        frees = λ q f. Grown-free queue t3 t4 q s4 (f3 q f);
        longer = λ q a b c e.
            Grown-longer queue false t3 t4 q s4 e
            ∙ Grown-longer active false t2 t3 q s3 c
            ∙ Grown-longer group false t1 t2 q s2 b
            ∙ Grown-longer servers false t t1 q s1 a;
      }

permanent_of : (k : Option Bool) → is_node k ≡ true → k ≢ some true → k ≡ some false
permanent_of none there free = absurd cc
permanent_of (some true) there free = absurd (free refl)
permanent_of (some false) there free = refl

-- The paths of a group, each below its parent.
abbrev pub servers : Bytes
servers = codes "/Servers"

abbrev pub group_of : Bytes → Bytes
group_of text = (servers ++ codes "/") ++ text

abbrev pub active_of : Bytes → Bytes
active_of text = (group_of text ++ codes "/") ++ codes "Active"

abbrev pub queue_of : Bytes → Bytes
queue_of text = (group_of text ++ codes "/") ++ codes "Queue"

-- The globals hold the paths of a group.
pub record IsGroup (text : Bytes) (g : Globals) : Type 0 where
  pub group_path : g.group_guid_path ≡ group_of text
  pub active_path : get_active_path g ≡ active_of text
  pub queue_path : g.server_queue_path ≡ queue_of text

module _ (z : ZooClient) (d : Documented z) (text : Bytes) (named : IsName text) (g : Globals)
    (at : IsGroup text g) (t : z.Tree) where
  -- There is no ephemeral znode at the path.
  abbrev IsFree : Bytes → Type 0
  IsFree p = d.kind t p ≢ some true

  create_group-Group :
      IsFree servers
      → IsFree (group_of text)
      → IsFree (active_of text)
      → IsFree (queue_of text)
      → Group z d servers (group_of text) (active_of text) (queue_of text) t (create_group z g t)
  unfolding create_paths
  create_group-Group free_servers free_group free_active free_queue =
      let s1 =
        (d.creates [] (codes "Servers") false t
          (record { filled = omega arith; no_slash = omega arith }) (d.root t)).1 in
      let p1 = Grown-permanent z d servers t _ s1 free_servers in
      let s2 = d.acreates servers text false _ named p1 in
      let p2 =
        Grown-permanent z d (group_of text) _ _ s2
          (Grown-free z d servers t _ (group_of text) s1 free_group) in
      let s3 =
        d.acreates (group_of text) (codes "Active") false _
          (record { filled = omega arith; no_slash = omega arith }) p2 in
      let s4 =
        d.acreates (group_of text) (codes "Queue") false _
          (record { filled = omega arith; no_slash = omega arith })
          (Kept-permanent z d _ _ (group_of text) (Grown-Kept z d (active_of text) false _ _ s3)
            p2) in
      subst (Group z d servers (group_of text) (active_of text) (queue_of text) t)
        (λ i. create_paths z (sym at.group_path i) (sym at.active_path i) (sym at.queue_path i) t)
        (four-Group z d servers (group_of text) (active_of text) (queue_of text) t _ _ _ _ s1 s2 s3
          s4 free_active free_queue)

  -- An early return leaves the group that an earlier start has created.
  pub find_or_create-Group :
      IsFree servers
      → IsFree (group_of text)
      → IsFree (active_of text)
      → IsFree (queue_of text)
      → (is_node (d.kind t (queue_of text)) ≡ true → is_node (d.kind t (active_of text)) ≡ true)
      → Group z d servers
          (group_of text)
          (active_of text)
          (queue_of text)
          t
          (find_or_create z true g t)
  unfolding find_or_create
  find_or_create-Group free_servers free_group free_active free_queue begun =
      elim (Bool-cases (is_zok (z.zoo_exists g.server_queue_path t))) [
        | inl there ↦
            let queue_there : is_node (d.kind t (queue_of text)) ≡ true =
              ap (λ p. is_node (d.kind t p)) (sym at.queue_path)
              ∙ sym (d.exists_lem g.server_queue_path t)
              ∙ there in
            rw there (record {
              active_permanent = permanent_of _ (begun queue_there) free_active;
              queue_permanent = permanent_of _ queue_there free_queue;
              keeps = λ q h. refl;
              frees = λ q h. h;
              longer = λ q a b c e. refl;
            })
        | inr missing ↦
            rw missing (create_group-Group free_servers free_group free_active free_queue)
      ]
