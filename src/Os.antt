-- ===== src/Os.antt =====
-- The operating system as the program uses it (Go's packages os, io and time): names linked to
-- inodes, so that a hard link shares its content, and an environment that may fail any call.
-- Directories are not in the state: the program creates the directory of a path before it writes
-- there. A failing call is an entry of a schedule, so a theorem about every schedule covers every
-- error, and a crash is a schedule on which every later call fails.
pub mod Path
pub mod Files
use goreecloud_drive.Prelude.{
  ℕ, suc, ◌+◌, String, Bool, true, false, Option, none, some, List, [], ◌∷◌, ◌++◌, length, take,
  drop, ltb, eqb, ◌&&◌, if◌then◌else◌,
}
use goreecloud_drive.Prelude.Text.{Str}
use goreecloud_drive.Errors.{
  Sentinel, Error, is, wrap, text, Result, ok, err, os_exist, os_not_exist,
}
use goreecloud_drive.Wardveil.Types.{Time}
use Path.{FilePath, update}

abbrev pub Bytes : Type 0
Bytes = List ℕ

pub record Inode : Type 0 where
  pub regular : Bool
  pub content : Bytes

-- What happens to the next call: `fails n` is an I/O error, before which a write has written `n`
-- bytes.
pub data Fault : Type 0 where
  fine : Fault
  fails : ℕ → Fault

pub record World : Type 0 where
  pub links : FilePath → Option ℕ
  pub inodes : ℕ → Inode
  pub next : ℕ
  -- the schedule of the calls that may write, and that of Stat: `true` is a failure
  pub faults : List Fault
  pub stat_faults : List Bool
  pub now : Time
  -- the time that passes before each reading of the clock
  pub ticks : List ℕ
  -- the random names of temporary files
  pub suffixes : List Str

-- An action on a state: it gives a result or an error, and the new state either way.
abbrev pub Action {ℓ} : Type 0 → Type ℓ → Type ℓ
Action S A = S → Result A × S

abbrev pub Io {ℓ} : Type ℓ → Type ℓ
Io A = Action World A

abbrev pub relabel {ℓ} : {A : Type ℓ} → (Error → Error) → Result A → Result A
relabel f (ok a) = ok a
relabel f (err e) = err (f e)

module _ {ℓ} {S : Type 0} {A : Type ℓ} where
  abbrev pub pure : A → Action S A
  pure a w = (ok a, w)

  abbrev pub raise : Error → Action S A
  raise e w = (err e, w)

  abbrev pub lift : Result A → Action S A
  lift r w = (r, w)

  -- The result of a call as a value: `_, err := f()`.
  abbrev pub attempt : Action S A → Action S (Result A)
  attempt m w = let (r, w') = m w in (ok r, w')

  -- `if err != nil { return fmt.Errorf("...: %w", err) }`
  abbrev pub relabelling : (Error → Error) → Action S A → Action S A
  relabelling f m w = let (r, w') = m w in (relabel f r, w')

  abbrev pub wrapping : String → Action S A → Action S A
  wrapping message m w = let (r, w') = m w in (relabel (wrap message) r, w')

infixl 5 ◌>>=◌ ◌>>◌
abbrev pub ◌>>=◌ {ℓ κ} :
    {S : Type 0} {A : Type ℓ} {B : Type κ} → Action S A → (A → Action S B) → Action S B
◌>>=◌ m f w = let (r, w') = m w in elim r [ ok a ↦ f a w' | err e ↦ (err e, w') ]

abbrev pub ◌>>◌ {ℓ κ} :
    {S : Type 0} {A : Type ℓ} {B : Type κ} → Action S A → Action S B → Action S B
m >> k = m >>= λ _. k

-- `_ = f()`
abbrev pub ignoring {ℓ} : {S : Type 0} {A : Type ℓ} → Action S A → Action S (Unit {0})
ignoring m w = let (r, w') = m w in (ok tt, w')

abbrev pub io_error : Error
io_error = text "input/output error"

-- Takes the next entry of the schedule; past its end all is fine.
abbrev pub next_fault : List Fault → Fault × List Fault
next_fault [] = (fine, [])
next_fault (f ∷ fs) = (f, fs)

abbrev pub next_stat_fault : List Bool → Bool × List Bool
next_stat_fault [] = (false, [])
next_stat_fault (f ∷ fs) = (f, fs)

-- A call that only may fail: MkdirAll, Chmod, Seek, Sync, Close.
unfoldable pub plain_call : Io (Unit {0})
plain_call w =
    let (f, fs) = next_fault w.faults in
    let w' = record w { faults = fs } in
    elim f [ fine ↦ (ok tt, w') | fails _ ↦ (err io_error, w') ]

abbrev found : Option ℕ → Result ℕ
found none = err (is os_not_exist)
found (some i) = ok i

-- os.Stat and File.Stat
unfoldable pub stat_inode : ℕ → Io Inode
stat_inode i w =
    let (f, fs) = next_stat_fault w.stat_faults in
    let w' = record w { stat_faults = fs } in
    if f then (err io_error, w') else (ok (w.inodes i), w')

unfoldable pub stat : FilePath → Io Inode
stat p w =
    let (f, fs) = next_stat_fault w.stat_faults in
    let w' = record w { stat_faults = fs } in
    if f
    then (err io_error, w')
    else elim (w.links p) [ none ↦ (err (is os_not_exist), w') | some i ↦ (ok (w.inodes i), w') ]

-- os.Open, and the descriptor that it gives: the inode.
unfoldable pub open_read : FilePath → Io ℕ
open_read p w =
    let (f, fs) = next_fault w.faults in
    let w' = record w { faults = fs } in
    elim f [ fine ↦ (found (w.links p), w') | fails _ ↦ (err io_error, w') ]

-- Replaces the content of an inode.
abbrev pub set_inode : ℕ → Inode → (ℕ → Inode) → ℕ → Inode
set_inode i node inodes j = if eqb i j then node else inodes j

-- A new, empty file at `p`.
abbrev create_at : FilePath → Io ℕ
create_at p w = (
  ok w.next,
  record w {
    links = update w.links p (some w.next);
    inodes = set_inode w.next (record { regular = true; content = [] }) w.inodes;
    next = suc w.next;
  },
)

-- os.OpenFile(p, O_CREATE|O_WRONLY)
unfoldable pub open_create : FilePath → Io ℕ
open_create p w =
    let (f, fs) = next_fault w.faults in
    let w' = record w { faults = fs } in
    elim f [
      | fine ↦ elim (w.links p) [ none ↦ create_at p w' | some i ↦ (ok i, w') ]
      | fails _ ↦ (err io_error, w')
    ]

-- os.OpenFile(p, O_WRONLY|O_CREATE|O_EXCL)
unfoldable pub open_exclusive : FilePath → Io ℕ
open_exclusive p w =
    let (f, fs) = next_fault w.faults in
    let w' = record w { faults = fs } in
    elim f [
      | fine ↦ elim (w.links p) [ none ↦ create_at p w' | some i ↦ (err (is os_exist), w') ]
      | fails _ ↦ (err io_error, w')
    ]

abbrev pub next_suffix : List Str → Str × List Str
next_suffix [] = ([], [])
next_suffix (s ∷ ss) = (s, ss)

-- os.CreateTemp(dir, prefix + "*"): the name, and the descriptor.
unfoldable pub create_temp : FilePath → Str → Io (FilePath × ℕ)
unfolding open_exclusive
create_temp dir prefix w =
    let (suffix, rest) = next_suffix w.suffixes in
    let p = dir ++ (prefix ++ suffix) ∷ [] in
    (open_exclusive p >>= λ i. pure (p, i)) (record w { suffixes = rest })

-- os.Link
unfoldable pub link : FilePath → FilePath → Io (Unit {0})
link old new w =
    let (f, fs) = next_fault w.faults in
    let w' = record w { faults = fs } in
    elim f [
      | fine ↦ elim (w.links old) [
        | none ↦ (err (is os_not_exist), w')
        | some i ↦ elim (w.links new) [
          | none ↦ (ok tt, record w' { links = update w.links new (some i) })
          | some _ ↦ (err (is os_exist), w')
        ]
      ]
      | fails _ ↦ (err io_error, w')
    ]

-- os.Remove
unfoldable pub remove : FilePath → Io (Unit {0})
remove p w =
    let (f, fs) = next_fault w.faults in
    let w' = record w { faults = fs } in
    elim f [
      | fine ↦ elim (w.links p) [
        | none ↦ (err (is os_not_exist), w')
        | some _ ↦ (ok tt, record w' { links = update w.links p none })
      ]
      | fails _ ↦ (err io_error, w')
    ]

-- os.Rename
unfoldable pub rename : FilePath → FilePath → Io (Unit {0})
rename old new w =
    let (f, fs) = next_fault w.faults in
    let w' = record w { faults = fs } in
    elim f [
      | fine ↦ elim (w.links old) [
        | none ↦ (err (is os_not_exist), w')
        | some i ↦ (ok tt, record w' { links = update (update w.links new (some i)) old none })
      ]
      | fails _ ↦ (err io_error, w')
    ]

-- The content after `bytes` are written at `offset`.
abbrev pub splice : Bytes → ℕ → Bytes → Bytes
splice old offset bytes = take offset old ++ (bytes ++ drop (offset + length bytes) old)

abbrev pub put_content : ℕ → Bytes → World → World
put_content i bytes w = record w {
  inodes = set_inode i (record (w.inodes i) { content = bytes }) w.inodes;
}

-- File.Write at an offset; an error may come after a part is written.
unfoldable pub write_at : ℕ → ℕ → Bytes → Io (Unit {0})
write_at i offset bytes w =
    let (f, fs) = next_fault w.faults in
    let w' = record w { faults = fs } in
    elim f [
      | fine ↦ (ok tt, put_content i (splice (w.inodes i).content offset bytes) w')
      | fails n ↦
          (err io_error, put_content i (splice (w.inodes i).content offset (take n bytes)) w')
    ]

-- File.Truncate, of a file that is at least `size` long.
unfoldable pub truncate : ℕ → ℕ → Io (Unit {0})
truncate i size w =
    let (f, fs) = next_fault w.faults in
    let w' = record w { faults = fs } in
    elim f [
      | fine ↦ (ok tt, put_content i (take size (w.inodes i).content) w')
      | fails _ ↦ (err io_error, w')
    ]

-- os.ReadFile
unfoldable pub read_file : FilePath → Io Bytes
read_file p w =
    let (f, fs) = next_fault w.faults in
    let w' = record w { faults = fs } in
    elim f [
      | fine ↦ elim (w.links p) [
        | none ↦ (err (is os_not_exist), w')
        | some i ↦ (ok (w.inodes i).content, w')
      ]
      | fails _ ↦ (err io_error, w')
    ]

-- The read of an open file to its end.
unfoldable pub read_all : ℕ → Io Bytes
read_all i w =
    let (f, fs) = next_fault w.faults in
    let w' = record w { faults = fs } in
    elim f [ fine ↦ (ok (w.inodes i).content, w') | fails _ ↦ (err io_error, w') ]

abbrev pub next_tick : List ℕ → ℕ × List ℕ
next_tick [] = (0, [])
next_tick (t ∷ ts) = (t, ts)

-- time.Now().UTC()
unfoldable pub time_now : Io Time
time_now w =
    let (t, ts) = next_tick w.ticks in
    let later = w.now + t in (ok later, record w { now = later; ticks = ts })

-- An `io.Reader`: the bytes that it yields, and whether it ends by an error.
pub record Reader : Type 0 where
  pub bytes : Bytes
  pub broken : Bool

-- io.Copy(file, io.LimitReader(src, limit)) at an offset of the file: the number of bytes copied. A
-- source that breaks before the limit has been written as far as it went.
unfoldable pub copy_limited : ℕ → ℕ → ℕ → Reader → Io ℕ
unfolding write_at
copy_limited i offset limit src = do
  let chunk = take limit src.bytes
  write_at i offset chunk
  if src.broken && ltb (length src.bytes) limit
      then raise (text "source read failed")
      else pure (length chunk)
