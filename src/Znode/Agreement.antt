-- ===== src/Znode/Agreement.antt =====
-- The paths that client and server build for one queue.
use ua_rate_throttling.Common.{
  append_cancel_left, ℕ, zero, suc, ◌+◌, ◌/◌, ◌≤◌, ◌<◌, ◌≡◌, ◌≢◌, refl, ap, sym, ◌∙◌, [], ◌∷◌, ◌++◌,
  Bytes, codes, length, length-append, snprintf, snprintf_fits, c_string, NoNul,
  c_string-eq_of_NoNul, All, arith, ◌%◌, All-append, subst,
}
use ua_rate_throttling.Common.Cstdlib.{print_ulong, radix_digits, decimal_width}
use ua_rate_throttling.Common.Cstdlib.Plain.{IsPlain, print_ulong-IsPlain}
use ua_rate_throttling.Url.{encode}
use ua_rate_throttling.Url.RoundTrip.{IsChar, encode_injective}
use ua_rate_throttling.Url.Buffer.{length-encode}
use ua_rate_throttling.Znode.{
  Globals, set_server_queue_path, encode_server_queue_path, server_uri, server_task_path,
  buffer_size, path_size, get_queue_path,
}

IsChar-NoNul : (s : Bytes) → All IsChar s → NoNul s
IsChar-NoNul [] h = tt
IsChar-NoNul (c ∷ s) h = (omega (arith, h.0), IsChar-NoNul s h.1)

-- A URL that the path buffers have room for, percent-encoded, behind a queue path.
pub record IsUrl (uri : Bytes) : Type 0 where
  pub chars : All IsChar uri
  pub short : length uri ≤ 20000

module _ (g : Globals) (small : length g.server_queue_path < path_size) (uri : Bytes)
    (url : IsUrl uri) where
  -- The text that `snprintf` is given.
  queue_text : Bytes
  queue_text = get_queue_path g ++ codes "/" ++ encode uri

  length-queue_text : length queue_text ≤ 61100
  unfolding queue_text
  length-queue_text = omega (
    arith,
    url.short,
    length-append g.server_queue_path (codes "/"),
    length-append (g.server_queue_path ++ codes "/") (encode uri),
    length-encode uri,
  )

  pub server_task_path-eq : server_task_path uri g ≡ get_queue_path g ++ codes "/" ++ encode uri
  unfolding server_task_path queue_text
  server_task_path-eq = snprintf_fits buffer_size queue_text (omega (arith, length-queue_text))

  length-server_task_path : length (server_task_path uri g) ≤ 61100
  unfolding queue_text
  length-server_task_path = omega (arith, length-queue_text, ap length server_task_path-eq)

  url_string-eq : snprintf buffer_size (c_string uri) ≡ uri
  url_string-eq =
      ap (snprintf buffer_size) (c_string-eq_of_NoNul uri (IsChar-NoNul uri url.chars))
      ∙ snprintf_fits buffer_size uri (omega (arith, url.short))

  pub set_server_queue_path-eq : set_server_queue_path uri g ≡ server_task_path uri g
  unfolding set_server_queue_path server_task_path
  set_server_queue_path-eq =
      ap (λ u. snprintf buffer_size (get_queue_path g ++ codes "/" ++ encode u)) url_string-eq

  encode_server_queue_path-eq :
      encode_server_queue_path uri g ≡ server_task_path uri g ++ codes "/task-"
  unfolding encode_server_queue_path
  encode_server_queue_path-eq =
      ap (λ p. snprintf buffer_size (p ++ codes "/task-")) set_server_queue_path-eq
      ∙ snprintf_fits buffer_size (server_task_path uri g ++ codes "/task-") (
          omega (
            arith,
            length-server_task_path,
            length-append (server_task_path uri g) (codes "/task-"),
          ))

length-radix_digits :
    (base : ℕ) (digit : ℕ → ℕ) (width n : ℕ) → length (radix_digits base digit width n) ≡ width
unfolding radix_digits
length-radix_digits base digit zero n = refl
length-radix_digits base digit (suc width) n = omega (
  arith,
  length-append (radix_digits base digit width (n / base)) (digit (n % base) ∷ []),
  length-radix_digits base digit width (n / base),
)

decimal_width-le : (fuel n : ℕ) → decimal_width fuel n ≤ suc fuel
unfolding decimal_width
decimal_width-le zero n = omega arith
decimal_width-le (suc fuel) n = ground (arith, decimal_width-le fuel (n / 10))

-- `%lu` writes at most 20 bytes.
length-print_ulong : (n : ℕ) → length (print_ulong n) ≤ 20
unfolding print_ulong
length-print_ulong n =
    omega
      (arith, length-radix_digits 10 (λ d. b'0' + d) (decimal_width 19 n) n, decimal_width-le 19 n)

IsPlain-IsChar : (s : Bytes) → All IsPlain s → All IsChar s
IsPlain-IsChar [] h = tt
IsPlain-IsChar (c ∷ s) h = (ground arith, IsPlain-IsChar s h.1)

module _ (hostname : Bytes) (chars : All IsChar hostname) (short : length hostname ≤ 10000)
    (port : ℕ) where
  -- The URL of a server.
  uri_text : Bytes
  uri_text = codes "opc.tcp://" ++ hostname ++ codes ":" ++ print_ulong port

  uri_text-short : length uri_text ≤ 20000
  unfolding uri_text
  uri_text-short = omega (
    arith,
    short,
    length-append (codes "opc.tcp://") hostname,
    length-append (codes "opc.tcp://" ++ hostname) (codes ":"),
    length-append (codes "opc.tcp://" ++ hostname ++ codes ":") (print_ulong port),
    length-print_ulong port,
  )

  pub server_uri-eq :
      server_uri hostname port ≡ codes "opc.tcp://" ++ hostname ++ codes ":" ++ print_ulong port
  unfolding server_uri uri_text
  server_uri-eq = snprintf_fits buffer_size uri_text (omega (arith, uri_text-short))

  uri_text-chars : All IsChar uri_text
  unfolding uri_text
  uri_text-chars =
      All-append IsChar (codes "opc.tcp://" ++ hostname ++ codes ":") (print_ulong port)
        (All-append IsChar (codes "opc.tcp://" ++ hostname) (codes ":")
          (All-append IsChar (codes "opc.tcp://") hostname (omega arith) chars) (omega arith))
        (IsPlain-IsChar (print_ulong port) (print_ulong-IsPlain port))

  pub server_uri-IsUrl : IsUrl (server_uri hostname port)
  unfolding uri_text
  server_uri-IsUrl = record {
    chars = subst (All IsChar) (sym server_uri-eq) uri_text-chars;
    short = subst (λ u. length u ≤ 20000) (sym server_uri-eq) uri_text-short;
  }

-- Where the path of the group's queue is not cut off, for every host name of at most 10000 bytes and
-- every port: the queue that the server watches
-- (`zkUA_setServerQueuePath`) is the znode that it created, and the path under which a client of that
-- server creates its tasks (`zkUA_encodeServerQueuePath`) is `task-` in that znode.
pub client_server_agree :
    (g : Globals)
    → length g.server_queue_path < path_size
    → (hostname : Bytes) → All IsChar hostname
    → length hostname ≤ 10000
    → (port : ℕ)
    → (set_server_queue_path (server_uri hostname port) g
        ≡ server_task_path (server_uri hostname port) g)
      × (encode_server_queue_path (server_uri hostname port) g
          ≡ server_task_path (server_uri hostname port) g ++ codes "/task-")
client_server_agree g small hostname chars short port = (
  set_server_queue_path-eq g small (server_uri hostname port)
      (server_uri-IsUrl hostname chars short port),
  encode_server_queue_path-eq g small (server_uri hostname port)
      (server_uri-IsUrl hostname chars short port),
)

-- Two servers of one group with different URLs of at most 20000 bytes never share a queue znode.
pub server_task_path_injective :
    (g : Globals)
    → length g.server_queue_path < path_size
    → (u v : Bytes) → IsUrl u
    → IsUrl v
    → u ≢ v
    → server_task_path u g ≢ server_task_path v g
server_task_path_injective g small u v hu hv apart e = apart (
    encode_injective u v hu.chars hv.chars (
      append_cancel_left (get_queue_path g ++ codes "/") (encode u) (encode v)
        (sym (server_task_path-eq g small u hu) ∙ e ∙ server_task_path-eq g small v hv)))
