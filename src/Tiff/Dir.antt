-- ===== src/Tiff/Dir.antt =====
-- src/tiff/dir.rs and src/tiff/container.rs: reading a directory, and the chain of directories.
pub mod Loaded
pub mod Written
pub mod RoundTrip
pub mod Numbers
pub mod Chain
mod Examples
use libopenraw.Prelude.{
  ℕ, zero, suc, ◌+◌, ◌*◌, Bool, true, false, List, [], ◌∷◌, ◌++◌, ◌==◌, ltb, if◌then◌else◌, Option,
  none, some, Result, ok, err, panic, ◌>>=◌, ◌>>◌,
}
use libopenraw.Container.{Endian}
use libopenraw.Io.{
  endian_of, ByteOrder, big_endian, little_endian, ByteOrderCrate, View, seek, view_read, view_u16,
  view_u32,
}
use libopenraw.Tiff.Entry.{Entry, new_entry, is_inline, load_data}

-- A `BTreeMap` by its entries in order; a key that is there gets the new value.
unfoldable pub insert : {A : Type 0} → ℕ → A → List (ℕ × A) → List (ℕ × A)
insert k v [] = (k, v) ∷ []
insert k v (p ∷ m) =
    let later = insert k v m in
    if k == p.0 then (k, v) ∷ m else (if ltb k p.0 then (k, v) ∷ p ∷ m else p ∷ later)

-- Without the kind, the name and the tag names, which the caller gives, and the cache of sub-directories.
pub record Dir : Type 0 where
  pub endian : Endian
  pub entries : List (ℕ × Entry)
  pub next : ℕ
  pub mnote_offset : ℕ

-- An entry that could not be loaded stays, as an error.
unfoldable pub or_error : Entry → Result (ℕ × Entry) → Result Entry
or_error e (ok (n, e')) = ok e'
or_error e (err code) = ok (record e { type_ = 10000 })
or_error e panic = panic

module _ (c : ByteOrderCrate) (o : ByteOrder) (base_offset : ℕ) where
  unfoldable pub load_entry : View → Entry → Result Entry
  load_entry view e = if is_inline e then ok e else or_error e (load_data c o base_offset view e)

  -- The 12 bytes of an entry, and its data. Loading seeks, and the position is set back.
  unfoldable pub read_entry : View → Result (Entry × View)
  read_entry view = do
    (id, view1) ← view_u16 c o view
    (type_, view2) ← view_u16 c o view1
    (count, view3) ← view_u32 c o view2
    (bytes, view4) ← view_read 4 view3
    e ← load_entry view4 (new_entry id type_ count bytes)
    ok (e, view4)

  unfoldable pub read_entries : ℕ → View → List (ℕ × Entry) → Result (List (ℕ × Entry) × View)
  read_entries zero view entries = ok (entries, view)
  read_entries (suc left) view entries = do
    (e, view') ← read_entry view
    read_entries left view' (insert e.id e entries)

  -- `Dir::read`. The number of entries is an `i16`: a negative one gives none.
  unfoldable pub read_dir : View → ℕ → Result Dir
  read_dir view dir_offset = do
    view0 ← seek dir_offset view
    (n, view1) ← view_u16 c o view0
    (entries, view2) ← read_entries (if ltb n 0x8000 then n else 0) view1 []
    (next, view3) ← view_u32 c o view2
    ok (record { endian = endian_of o; entries = entries; next = next; mnote_offset = base_offset })

module _ (c : ByteOrderCrate) (o : ByteOrder) (view : View) where
  unfoldable pub with_dir :
      Result Dir → List Dir → (ℕ → List Dir → Result (List Dir)) → Result (List Dir)
  with_dir (ok dir) dirs go_on = go_on dir.next (dirs ++ dir ∷ [])
  with_dir (err code) dirs go_on = ok dirs
  with_dir panic dirs go_on = panic

  -- `while dir_offset != 0` of `Container::dirs`: it ends at the offset 0, or at a directory that
  -- cannot be read. `late` is what the loop would give when its rounds run out.
  unfoldable pub dirs_from : Result (List Dir) → ℕ → ℕ → List Dir → Result (List Dir)
  dirs_from late zero dir_offset dirs = late
  dirs_from late (suc left) dir_offset dirs =
      if dir_offset == 0
      then ok dirs
      else with_dir (read_dir c o 0 view dir_offset) dirs (dirs_from late left)

  -- `Container::dirs`: the first offset is at the byte 4, and 0 when it cannot be read.
  unfoldable pub or_zero : Result (ℕ × View) → Result ℕ
  or_zero (ok p) = ok p.0
  or_zero (err code) = ok 0
  or_zero panic = panic

  unfoldable pub or_fail : Result View → Result View
  or_fail (ok v) = ok v
  or_fail _ = panic

  unfoldable pub dirs : Result (List Dir) → ℕ → Result (List Dir)
  dirs late rounds = do
    view' ← or_fail (seek 4 view)
    dir_offset ← or_zero (view_u32 c o view')
    dirs_from late rounds dir_offset []
