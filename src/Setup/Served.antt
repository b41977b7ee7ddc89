-- ===== src/Setup/Served.antt =====
-- Creating the znodes of a server in its group.
use ua_rate_throttling.Common.{
  refl, none, some, false, true, if◌then◌else◌, ◌+◌, ◌≢◌, [], ◌∷◌, Bytes, All, All-append, arith, ℕ,
  ◌++◌, Bool, length, ◌≡◌, codes, Option, ◌<◌, not, some, length-append, false, true, ◌∙◌, ap,
}
use ua_rate_throttling.Common.Cstdlib.{hex_digits}
use ua_rate_throttling.Common.Cstdlib.Plain.{IsPlain, hex_digits-IsPlain}
use ua_rate_throttling.Guid.{Guid, print_guid, guid_text}
use ua_rate_throttling.Znode.Exact.{length-print_guid}
use ua_rate_throttling.Url.{encode}
use ua_rate_throttling.Url.RoundTrip.{IsChar}
use ua_rate_throttling.Url.Buffer.{IsSegmentChar, encode-IsSegmentChar, encode-filled}
use ua_rate_throttling.Zoo.{zok, znodeexists, is_zok}
use ua_rate_throttling.Setup.{push_server, is_there}
use ua_rate_throttling.Setup.Libraries.{ZooClient}
use ua_rate_throttling.Setup.Documented.{Documented, IsName, is_node, settled}
use ua_rate_throttling.Setup.Created.{
  Grown-Kept, Grown-at, Grown-longer, Grown-permanent, Kept, Kept-permanent, Kept-trans, queue_of,
  active_of, group_of,
}

abbrev NoSlash : ℕ → Type 0
NoSlash c = c ≢ b'/'

IsPlain-NoSlash : (s : Bytes) → All IsPlain s → All NoSlash s
IsPlain-NoSlash [] h = tt
IsPlain-NoSlash (c ∷ s) h = (ground arith, IsPlain-NoSlash s h.1)

digits-NoSlash : (width n : ℕ) → All NoSlash (hex_digits width n)
digits-NoSlash width n = IsPlain-NoSlash (hex_digits width n) (hex_digits-IsPlain width n)

joined : (s t : Bytes) → All NoSlash s → All NoSlash t → All NoSlash (s ++ t)
joined = All-append NoSlash

dashed : (width n : ℕ) → All NoSlash (b'-' ∷ hex_digits width n)
dashed width n = (omega arith, digits-NoSlash width n)

guid_text-NoSlash : (g : Guid) → All NoSlash (guid_text g)
unfolding guid_text
guid_text-NoSlash g = search (joined, dashed, digits-NoSlash) depth 14

print_guid-NoSlash : (g : Guid) → All NoSlash (print_guid g)
unfolding print_guid
print_guid-NoSlash g =
    joined (b'{' ∷ guid_text g) (b'}' ∷ []) (omega arith, guid_text-NoSlash g) (omega arith)

pub print_guid-IsName : (g : Guid) → IsName (print_guid g)
print_guid-IsName g = record {
  filled = omega (arith, length-print_guid g);
  no_slash = print_guid-NoSlash g;
}

segment-NoSlash : (s : Bytes) → All IsSegmentChar s → All NoSlash s
segment-NoSlash [] h = tt
segment-NoSlash (c ∷ s) h = (h.0.1, segment-NoSlash s h.1)

pub encode-IsName : (s : Bytes) → All IsChar s → 0 < length s → IsName (encode s)
encode-IsName s chars filled = record {
  filled = encode-filled s filled;
  no_slash = segment-NoSlash (encode s) (encode-IsSegmentChar s chars);
}

-- The path of a child.
pub length-below : (p name : Bytes) → length ((p ++ codes "/") ++ name) ≡ length p + 1 + length name
length-below p name =
    omega (arith, length-append (p ++ codes "/") name, length-append p (codes "/"))

-- The znode for the tasks of a server of a group, and the one that tells that it runs.
abbrev pub task_of : Bytes → Bytes → Bytes
task_of text name = (queue_of text ++ codes "/") ++ name

abbrev pub live_of : Bytes → Bytes → Bytes
live_of text name = (active_of text ++ codes "/") ++ name

task-shorter : (text name : Bytes) → length (task_of text name) < length (live_of text name)
task-shorter text name = omega (
  arith,
  length-below (queue_of text) name,
  length-below (active_of text) name,
  length-below (group_of text) (codes "Queue"),
  length-below (group_of text) (codes "Active"),
)

module _ (z : ZooClient) (d : Documented z) (text name : Bytes) (named : IsName name) where
  -- What the two creates of a server leave behind.
  pub record Pushed (t : z.Tree) (r : Bool × z.Tree) : Type 0 where
    pub ready : r.0 ≡ not (is_node (d.kind t (live_of text name)))
    pub task_made : d.kind r.1 (task_of text name) ≡ some false
    pub live_made : d.kind r.1 (live_of text name) ≡ settled (d.kind t (live_of text name)) true
    pub keeps : Kept z d t r.1

  there : (k : Option Bool) → is_there (if is_node k then znodeexists else zok) ≡ true
  there none = refl
  there (some e) = refl

  is_new : (k : Option Bool) → is_zok (if is_node k then znodeexists else zok) ≡ not (is_node k)
  is_new none = refl
  is_new (some e) = refl

  pub push_server-Pushed :
      (t : z.Tree)
      → d.kind t (queue_of text) ≡ some false
      → d.kind t (active_of text) ≡ some false
      → d.kind t (task_of text name) ≢ some true
      → Pushed t (push_server z (task_of text name) (live_of text name) t)
  unfolding push_server
  push_server-Pushed t queue active free =
      let (rc, s1) = d.creates (queue_of text) name false t named queue in
      let k1 = Grown-Kept z d (task_of text name) false t _ s1 in
      let active1 = Kept-permanent z d t _ (active_of text) k1 active in
      let (rc', s2) = d.creates (active_of text) name true _ named active1 in
      let k2 = Grown-Kept z d (live_of text name) true _ _ s2 in
      let live1 =
        Grown-longer z d (task_of text name) false t _ (live_of text name) s1
          (task-shorter text name) in
      record {
        ready =
            rw (rc, rc', there (d.kind t (task_of text name)))
              (is_new _ ∙ ap (λ k. not (is_node k)) live1);
        task_made =
            Kept-permanent z d _ _ (task_of text name) k2
              (Grown-permanent z d (task_of text name) t _ s1 free);
        live_made = Grown-at z d (live_of text name) true _ _ s2 ∙ ap (λ k. settled k true) live1;
        keeps = Kept-trans z d t _ _ k1 k2;
      }
