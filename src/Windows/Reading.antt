-- ===== src/Windows/Reading.antt =====
-- src/platform_win32.c: what `platform_read_entire_file` reads, where it is put, and the handles that
-- it leaves open.
use tira.Prelude.{
  ℕ, ◌+◌, ◌-◌, ◌*◌, ◌^◌, ◌≤◌, ◌<◌, ◌≡◌, refl, ap, ◌∙◌, sym, arith, true, List, [], ◌∷◌, ◌++◌,
  Option, none, some, Bytes, length, ltb, ltb→lt, Bool-cases, inl, inr, ◌==◌, ◌||◌,
}
use tira.Memory.{Arena, alloc}
use tira.Builder.{sub64}
use tira.Memory.Regions.{IsArena, Allocates, placed, full, alloc-Allocates}
use tira.Platform.Reading.{Gives, fails, gives, IsStart, length-take_le, take-length}
use tira.Windows.{
  Win32, FileRead, file_read, assertion_failed, behind_path, no_file, close_file, with_bytes,
  read_allocated, read_sized, read_opened, read_path, platform_read_entire_file,
}

abbrev pub at_top : Arena → ℕ → Option ℕ × Arena
at_top a size = (some (a.base + a.used), record a { used = a.used + size })

-- Bytes for which there is room are at the top of the arena.
pub alloc-at_top :
    (a : Arena) (size : ℕ)
    → IsArena a
    → a.base + 2 * a.size < 2 ^ 64
    → 0 < size
    → size ≤ a.size - a.used
    → alloc a 1 1 size ≡ at_top a size
alloc-at_top a size r low some_byte room = go _ (
    alloc-Allocates a 1 0 size r (record {
      size_pos = omega arith;
      count_pos = omega arith;
      k_le = omega arith;
      no_wrap = omega (arith, r.used_le);
    }))
  where
    go : (o : Option ℕ × Arena) → Allocates a (1 * size) 0 o → o ≡ at_top a size
    go o (full p behind near multiple less) = absurd (omega (arith, r.used_le))
    go o (placed p place) =
        let top : p ≡ a.base + a.used = omega (arith, place.after, place.near) in
        let after : p - a.base + 1 * size ≡ a.used + size = omega (arith, top) in
        rw (after, top) refl

-- What comes of a file: an assertion about a length fails; the path takes all places, and its NUL is
-- written behind them; the result is empty, where memory may have been used up; or the bytes that the
-- file begins with, no more than its size, are at what was the top of the arena, and inside it.
-- Whatever comes of it, as many handles are open as before.
pub data ReadsFile (w : Win32) (path content : Bytes) (a : Arena) (h : ℕ) : FileRead → Type 0 where
  long_path : 2 ^ 31 - 2 < length path → ReadsFile w path content a h assertion_failed
  long_file :
      (size : ℕ)
      → w.get_file_size ≡ some size
      → 2 ^ 32 - 1 < size
      → ReadsFile w path content a h assertion_failed
  full_path :
      length (w.multi_byte_to_wide_char path 260) ≡ 260 → ReadsFile w path content a h behind_path
  not_read : ReadsFile w path content a h (no_file h a)
  read_failed :
      (size : ℕ)
      → a.used + size ≤ a.size
      → ReadsFile w path content a h (no_file h (record a { used = a.used + size }))
  reads :
      (size : ℕ) (text : Bytes)
      → w.get_file_size ≡ some size
      → a.used + size ≤ a.size
      → IsStart content size text
      → ReadsFile w path content a h (
          file_read (record {
            data_at = some (a.base + a.used);
            text = text;
            arena = record a { used = a.used + size };
            handles = h;
          }))

alloc-nothing : (a : Arena) (size : ℕ) → size ≡ 0 → alloc a 1 1 size ≡ (none, a)
unfolding alloc
alloc-nothing a size e =
    let guard : (a.base == 0 || 1 == 0 || 1 == 0 || size == 0) ≡ true = ground (arith, e) in
    rw guard refl

pub left_lem : (a : Arena) → IsArena a → sub64 a.size a.used ≡ a.size - a.used
unfolding sub64
left_lem a r = omega (arith, r.used_le, r.end_lt)

module _ (w : Win32) (path content : Bytes) (a : Arena) (h : ℕ) where
  with_bytes-ReadsFile :
      (size p k : ℕ) (o : Option Bytes)
      → w.get_file_size ≡ some size
      → a.used + size ≤ a.size
      → p ≡ a.base + a.used
      → k ≡ h + 1
      → Gives content 0 size o
      → ReadsFile w path content a h (with_bytes k p (record a { used = a.used + size }) o)
  with_bytes-ReadsFile size p k _ e room top opened fails =
      let closed : k - 1 ≡ h = omega arith in rw closed (read_failed size room)
  with_bytes-ReadsFile size p k _ e room top opened (gives n l) =
      let closed : k - 1 ≡ h = omega arith in
      rw (closed, top)
        (reads size _ e room (sym (take-length n content), omega (arith, length-take_le n content)))

  read_allocated-ReadsFile :
      (size : ℕ)
      → w.get_file_size ≡ some size
      → a.used + size ≤ a.size
      → Gives content 0 size (w.read_file size)
      → ReadsFile w path content a h (read_allocated w (h + 1) size (at_top a size))
  unfolding read_allocated
  read_allocated-ReadsFile size e room g = elim (Bool-cases (ltb (2 ^ 32 - 1) size)) [
    | inl long ↦ rw long (long_file size e (ltb→lt _ _ long))
    | inr short ↦
        rw short (with_bytes-ReadsFile size (a.base + a.used) (h + 1) _ e room refl refl g)
  ]

  not_read-closed : (k : ℕ) → k ≡ h + 1 → ReadsFile w path content a h (no_file (close_file k) a)
  not_read-closed k e = let closed : k - 1 ≡ h = omega arith in rw closed not_read

  read_sized-ReadsFile :
      (size : ℕ)
      → w.get_file_size ≡ some size
      → IsArena a
      → a.base + 2 * a.size < 2 ^ 64
      → Gives content 0 size (w.read_file size)
      → ReadsFile w path content a h (read_sized w (h + 1) size a)
  unfolding read_sized
  read_sized-ReadsFile size e r low g =
      let left = left_lem a r in
      elim (Bool-cases (ltb (sub64 a.size a.used) size)) [
        | inl more ↦ rw more (not_read-closed (h + 1) refl)
        | inr fits ↦
            let room : size ≤ a.size - a.used = ground (arith, left) in
            rw fits (elim (Bool-cases (size == 0)) [
              | inl none_left ↦
                  rw (alloc-nothing a size (ground arith))
                    (unfold read_allocated in not_read-closed (h + 1) refl)
              | inr some_left ↦
                  rw (alloc-at_top a size r low (ground arith) room)
                    (read_allocated-ReadsFile size e (omega (arith, r.used_le)) g)
            ])
      ]

  read_opened-ReadsFile :
      (o : Option ℕ)
      → w.get_file_size ≡ o
      → IsArena a
      → a.base + 2 * a.size < 2 ^ 64
      → ((size : ℕ) → Gives content 0 size (w.read_file size))
      → ReadsFile w path content a h (read_opened w (h + 1) a o)
  unfolding read_opened
  read_opened-ReadsFile none e r low g = not_read-closed (h + 1) refl
  read_opened-ReadsFile (some size) e r low g = read_sized-ReadsFile size e r low (g size)

  read_path-ReadsFile :
      (path_w : List ℕ)
      → w.multi_byte_to_wide_char path 260 ≡ path_w
      → length path_w ≤ 260
      → IsArena a
      → a.base + 2 * a.size < 2 ^ 64
      → ((size : ℕ) → Gives content 0 size (w.read_file size))
      → ReadsFile w path content a h (read_path w h path_w a)
  unfolding read_path
  read_path-ReadsFile path_w e room r low g = elim (Bool-cases (length path_w == 0)) [
    | inl nothing ↦ rw nothing not_read
    | inr something ↦ rw something (elim (Bool-cases (ltb (length path_w) 260)) [
      | inr behind ↦ rw behind (full_path (ap length e ∙ ground (arith, room)))
      | inl within ↦ rw within (elim (Bool-cases (w.create_file (path_w ++ 0 ∷ []))) [
        | inr closed ↦ rw closed not_read
        | inl opened ↦ rw opened (read_opened-ReadsFile _ refl r low g)
      ])
    ])
  ]

-- Whatever the Windows functions give, as long as `MultiByteToWideChar` keeps within the places of
-- the path and `ReadFile` gives bytes that the file begins with or fails, a file is read in one of the
-- ways above: no handle is left open, bytes are only put where the arena has room for the whole file,
-- and nothing is written behind the path unless the path takes all its places.
pub platform_read_entire_file-ReadsFile :
    (w : Win32) (path content : Bytes) (a : Arena) (h : ℕ)
    → IsArena a
    → a.base + 2 * a.size < 2 ^ 64
    → length (w.multi_byte_to_wide_char path 260) ≤ 260
    → ((size : ℕ) → Gives content 0 size (w.read_file size))
    → ReadsFile w path content a h (platform_read_entire_file w h path a)
unfolding platform_read_entire_file
platform_read_entire_file-ReadsFile w path content a h r low room g =
    elim (Bool-cases (ltb (2 ^ 31 - 2) (length path))) [
      | inl long ↦ rw long (long_path (ltb→lt _ _ long))
      | inr short ↦ rw short (read_path-ReadsFile w path content a h _ refl room r low g)
    ]
