-- ===== src/Windows/Whole.antt =====
-- src/platform_win32.c, src/platform_linux.c: the same file read by the two platform layers.
use tira.Prelude.{
  ℕ, ◌+◌, ◌-◌, ◌*◌, ◌^◌, ◌≤◌, ◌<◌, ◌≡◌, refl, ap, ◌∙◌, sym, arith, true, false, [], ◌∷◌, ◌++◌,
  Option, none, some, Bytes, length, ltb, ◌==◌,
}
use tira.Memory.{Arena}
use tira.Memory.Regions.{IsArena}
use tira.Builder.{sub64}
use tira.Platform
use tira.Platform.Reading.{Delivers, platform_read_entire_file-whole}
use tira.Windows.{
  Win32, FileRead, file_read, read_allocated, read_sized, read_opened, read_path,
  platform_read_entire_file,
}
use tira.Windows.Reading.{at_top, alloc-at_top, left_lem}

-- The Windows functions on a path that is short enough and a file that is there: they give its size
-- and, for as many bytes, the file.
pub record Serves (w : Win32) (path content : Bytes) : Type 0 where
  pub path_le : length path ≤ 2 ^ 31 - 2
  pub path_w_pos : 0 < length (w.multi_byte_to_wide_char path 260)
  pub path_w_lt : length (w.multi_byte_to_wide_char path 260) < 260
  pub created : w.create_file (w.multi_byte_to_wide_char path 260 ++ 0 ∷ []) ≡ true
  pub sized : w.get_file_size ≡ some (length content)
  pub size_pos : 0 < length content
  pub size_lt : length content < 2 ^ 32
  pub read : w.read_file (length content) ≡ some content

whole : Bytes → ℕ → Arena → FileRead
whole content h a = file_read (record {
  data_at = some (a.base + a.used);
  text = content;
  arena = record a { used = a.used + length content };
  handles = h;
})

module _ (w : Win32) (path content : Bytes) (a : Arena) (h : ℕ) (s : Serves w path content) where
  read_allocated-whole :
      read_allocated w (h + 1) (length content) (at_top a (length content)) ≡ whole content h a
  unfolding read_allocated whole
  read_allocated-whole =
      let short : ltb (2 ^ 32 - 1) (length content) ≡ false = ground (arith, s.size_lt) in
      let closed : h + 1 - 1 ≡ h = omega arith in rw (short, s.read, closed) refl

  read_sized-whole :
      IsArena a
      → a.base + 2 * a.size < 2 ^ 64
      → a.used + length content ≤ a.size
      → read_sized w (h + 1) (length content) a ≡ whole content h a
  unfolding read_sized
  read_sized-whole r low room =
      let fits : ltb (sub64 a.size a.used) (length content) ≡ false =
        ground (arith, left_lem a r, room) in
      rw (fits, alloc-at_top a (length content) r low s.size_pos (omega arith)) read_allocated-whole

  platform_read_entire_file-at_top :
      IsArena a
      → a.base + 2 * a.size < 2 ^ 64
      → a.used + length content ≤ a.size
      → platform_read_entire_file w h path a ≡ whole content h a
  unfolding platform_read_entire_file read_path read_opened
  platform_read_entire_file-at_top r low room =
      let path_w = w.multi_byte_to_wide_char path 260 in
      let short : ltb (2 ^ 31 - 2) (length path) ≡ false = ground (arith, s.path_le) in
      let something : (length path_w == 0) ≡ false = ground (arith, s.path_w_pos) in
      let within : ltb (length path_w) 260 ≡ true = ground (arith, s.path_w_lt) in
      rw (short, something, within, s.created)
        (ap (read_opened w (h + 1) a) s.sized ∙ read_sized-whole r low room)

-- `data` and the text there, where there is a result.
unfoldable pub bytes : FileRead → Option (Option ℕ × Bytes)
bytes (file_read r) = some (r.data_at, r.text)
bytes _ = none

unfoldable pub linux_bytes : Platform.FileRead → Option (Option ℕ × Bytes)
linux_bytes (Platform.file_read r) = some (r.data_at, r.text)
linux_bytes _ = none

-- On a file that is not empty, of less than 2 ^ 32 bytes, that both systems open and give whole, the
-- two platform layers do the same: `data` is the old top of the arena, and the file is there, as long
-- as the path is short enough and the arena has room for the file and a NUL.
pub platform_read_entire_file-linux :
    (w : Win32) (sys : Platform.System) (path content : Bytes) (a : Arena) (h f : ℕ)
    → Serves w path content
    → IsArena a
    → a.base + 2 * a.size < 2 ^ 64
    → a.used + length content < a.size
    → sys.opened ≡ true
    → sys.stat_size ≡ some (length content)
    → Delivers content sys.read
    → length content < f
    → (bytes (platform_read_entire_file w h path a) ≡ some (some (a.base + a.used), content))
      × (linux_bytes (Platform.platform_read_entire_file f sys a)
          ≡ bytes (platform_read_entire_file w h path a))
unfolding bytes linux_bytes whole
platform_read_entire_file-linux w sys path content a h f s r low room o n d enough =
    let here : bytes (platform_read_entire_file w h path a)
        ≡ some (some (a.base + a.used), content) =
      ap bytes (platform_read_entire_file-at_top w path content a h s r low (omega arith)) in
    let (after, run) =
      platform_read_entire_file-whole f content sys a r
        (record {
          size_pos = omega arith;
          count_pos = omega arith;
          k_le = omega arith;
          no_wrap = omega (arith, r.used_le);
        })
        room o n d enough in
    (here, ap linux_bytes run ∙ sym here)
