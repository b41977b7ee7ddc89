-- ===== src/Config/Path.antt =====
-- Where the configuration file is: `getStdoutFromCommand`, `zkUA_cleanStdoutFromCommand` and the
-- beginning of `zkUA_readConfFile` of src/zk_cli.c. The command runs outside the program.
use ua_rate_throttling.Common.{
  ◌+◌, ℕ, ◌<◌, ◌≢◌, ◌≡◌, refl, ap, false, Option, none, some, [], ◌∷◌, ◌++◌, Bytes, codes, length,
  All, snprintf, c_string, ◌==◌, if◌then◌else◌, ◌>>=◌, arith, NoNul, c_string-eq_of_NoNul,
  snprintf_fits, length-append,
}
use ua_rate_throttling.Znode.{buffer_size}
use ua_rate_throttling.Config.{Reading, read_conf_file}

abbrev pub newline : ℕ
newline = 10

-- A line with the newline behind it, if there is one.
unfoldable pub first_line : Bytes → Bytes
first_line [] = []
first_line (c ∷ s) = let rest = first_line s in if c == newline then c ∷ [] else c ∷ rest

-- `getStdoutFromCommand`, of what `popen` gives: the first line that the command writes. `none` is a
-- command that cannot be run, or that writes nothing, so that no line is there.
unfoldable pub get_stdout_from_command : (Bytes → Option Bytes) → Bytes → Option Bytes
unfolding first_line
get_stdout_from_command run cmd = do
  output ← run cmd
  elim output [ [] ↦ none | ◌∷◌ c s ↦ some (first_line (c ∷ s)) ]

-- The newline at the end is overwritten.
unfoldable pub drop_newline : Bytes → Bytes
drop_newline [] = []
drop_newline (c ∷ []) = if c == newline then [] else c ∷ []
drop_newline (c ∷ d ∷ s) = c ∷ drop_newline (d ∷ s)

-- `zkUA_cleanStdoutFromCommand`: the line, and the number of its bytes. Without a line it reads in
-- front of the string.
unfoldable pub clean_stdout_from_command : (Bytes → Option Bytes) → Bytes → Option (Bytes × ℕ)
unfolding get_stdout_from_command drop_newline
clean_stdout_from_command run cmd = do
  output ← get_stdout_from_command run cmd
  some (drop_newline output, length (drop_newline output))

-- `confFilePath`
unfoldable pub conf_file_path : Bytes → Bytes → Bytes
conf_file_path cwd conf_file_name =
    snprintf buffer_size (c_string cwd ++ codes "/" ++ conf_file_name)

-- `zkUA_readConfFile`, of the name of the file. `files` are the files that can be opened.
unfoldable pub read_named_conf_file :
    (Bytes → Option Bytes) → (Bytes → Option Bytes) → Bytes → Option Reading
unfolding clean_stdout_from_command conf_file_path
read_named_conf_file run files conf_file_name = do
  (cwd, chars) ← clean_stdout_from_command run (codes "pwd")
  some (read_conf_file (files (conf_file_path cwd conf_file_name)))

-- A byte of a C string that is no newline.
abbrev pub IsLineChar : ℕ → Type 0
IsLineChar c = (0 < c) × (c ≢ newline)

first_line-append :
    (s t : Bytes) → All IsLineChar s → first_line (s ++ newline ∷ t) ≡ s ++ newline ∷ []
unfolding first_line
first_line-append [] t h = refl
first_line-append (c ∷ s) t (h, hs) =
    let other : (c == newline) ≡ false = ground (arith, h) in
    rw (other, first_line-append s t hs) refl

drop_newline-append : (s : Bytes) → drop_newline (s ++ newline ∷ []) ≡ s
unfolding drop_newline
drop_newline-append [] = refl
drop_newline-append (c ∷ []) = refl
drop_newline-append (c ∷ d ∷ s) = ap (λ r. c ∷ r) (drop_newline-append (d ∷ s))

LineChars-NoNul : (s : Bytes) → All IsLineChar s → NoNul s
LineChars-NoNul [] h = tt
LineChars-NoNul (c ∷ s) (h, hs) = (omega (arith, h.0), LineChars-NoNul s hs)

get_stdout-line :
    (run : Bytes → Option Bytes) (cmd s t : Bytes)
    → run cmd ≡ some (s ++ newline ∷ t)
    → All IsLineChar s
    → get_stdout_from_command run cmd ≡ some (s ++ newline ∷ [])
unfolding get_stdout_from_command
get_stdout-line run cmd [] t ran h = rw (ran, first_line-append [] t h) refl
get_stdout-line run cmd (c ∷ s) t ran h = rw (ran, first_line-append (c ∷ s) t h) refl

clean_stdout-line :
    (run : Bytes → Option Bytes) (cmd s t : Bytes)
    → run cmd ≡ some (s ++ newline ∷ t)
    → All IsLineChar s
    → clean_stdout_from_command run cmd ≡ some (s, length s)
unfolding clean_stdout_from_command
clean_stdout-line run cmd s t ran h =
    rw (get_stdout-line run cmd s t ran h, drop_newline-append s) refl

-- When `pwd` writes a directory and a newline, the name of the directory has no newline in it, and
-- it and the name of the file have less than 65534 bytes together, the configuration is read from
-- the file of that name in that directory.
pub read_named_conf_file-Directory :
    (run files : Bytes → Option Bytes) (dir rest conf_file_name : Bytes)
    → run (codes "pwd") ≡ some (dir ++ newline ∷ rest)
    → All IsLineChar dir
    → length dir + length conf_file_name < 65534
    → read_named_conf_file run files conf_file_name
      ≡ some (read_conf_file (files (dir ++ codes "/" ++ conf_file_name)))
unfolding read_named_conf_file conf_file_path
read_named_conf_file-Directory run files dir rest name ran chars short =
    rw
      (
        clean_stdout-line run (codes "pwd") dir rest ran chars,
        c_string-eq_of_NoNul dir (LineChars-NoNul dir chars),
        snprintf_fits buffer_size (dir ++ codes "/" ++ name) (
            omega
              (arith, short, length-append (dir ++ codes "/") name, length-append dir (codes "/"))),
      )
      refl
