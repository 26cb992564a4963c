-- ===== src/Tiff/Dir/Loaded.antt =====
-- Reading a directory never panics, and its entries have the data that they announce.
use libopenraw.Prelude.{
  ℕ, zero, suc, ◌+◌, ◌-◌, ◌≤◌, ◌≡◌, ◌⊎◌, inl, inr, refl, false, Bool-cases, List, [], ◌∷◌, All,
  length, length-take, length-drop, drop, ◌==◌, leb, leb→le, ltb, if◌then◌else◌, Result, ok, err,
  panic, reject_if, Safely, Safely-bind, Safely-reject_if, format_error, arith,
}
use libopenraw.Io.{
  ByteOrder, ByteOrderCrate, IsByteOrder, View, seek, view_read, view_u16, view_u32,
}
use libopenraw.Tiff.Entry.{
  Entry, as_slice, new_entry, data_size, is_inline, load_data_impl, with_loaded, load_data,
}
use libopenraw.Tiff.Dir.{insert, or_error, load_entry, read_entry, read_entries, read_dir}

-- The data that the type and the count ask for is there, or the entry is marked as an error.
abbrev pub IsReadable : Entry → Type 0
IsReadable e = (e.type_ ≡ 10000) ⊎ (data_size e ≤ length (as_slice e.data_bytes))

abbrev pub AreReadable : List (ℕ × Entry) → Type 0
AreReadable entries = All (λ p. IsReadable p.1) entries

pub view_read-Safely : (n : ℕ) (view : View) → Safely (λ p. length p.0 ≡ n) (view_read n view)
unfolding view_read
view_read-Safely n view = elim (Bool-cases (leb (view.pos + n) (length view.bytes))) [
  | inl e ↦ rw e (
      omega (
        arith,
        length-take n (drop view.pos view.bytes),
        length-drop view.pos view.bytes,
        leb→le (view.pos + n) (length view.bytes) e,
      ))
  | inr e ↦ rw e tt
]

seek-Safely : (p : ℕ) (view : View) → Safely (λ _. Unit {0}) (seek p view)
unfolding seek
seek-Safely p view = elim (Bool-cases (ltb (length view.bytes) p)) [
  | inl e ↦ rw e tt
  | inr e ↦ rw e tt
]

with_loaded-IsReadable :
    (e : Entry) (offset : ℕ) (bytes : List ℕ)
    → length bytes ≡ data_size e
    → IsReadable (with_loaded e offset bytes)
unfolding with_loaded data_size as_slice
with_loaded-IsReadable e offset bytes size = elim (Bool-cases (e.type_ == 7)) [
  | inl f ↦ rw f (inr (omega (arith, size)))
  | inr f ↦ rw f (inr (omega (arith, size)))
]

insert-All :
    {A : Type 0} (P : A → Type 0) (k : ℕ) (v : A) (m : List (ℕ × A))
    → P v
    → All (λ p. P p.1) m
    → All (λ p. P p.1) (insert k v m)
unfolding insert
insert-All P k v [] h all = (h, tt)
insert-All P k v (p ∷ m) h all = elim (Bool-cases (k == p.0)) [
  | inl e ↦ rw e (h, all.1)
  | inr e ↦ elim (Bool-cases (ltb k p.0)) [
    | inl f ↦ rw (e, f) (h, all)
    | inr f ↦ rw (e, f) (all.0, insert-All P k v m h all.1)
  ]
]

or_error-Safely :
    (e : Entry) (m : Result (ℕ × Entry))
    → Safely (λ p. IsReadable p.1) m
    → Safely IsReadable (or_error e m)
unfolding or_error
or_error-Safely e (ok p) h = h
or_error-Safely e (err code) h = inl refl
or_error-Safely e panic h = h

load_data_impl-Safely :
    (e : Entry) (offset : ℕ) (view : View)
    → Safely (λ bytes. length bytes ≡ data_size e) (load_data_impl e offset view)
unfolding load_data_impl
load_data_impl-Safely e offset view =
    Safely-bind (λ _. Unit {0}) (λ bytes. length bytes ≡ data_size e) (seek offset view) _
      (seek-Safely offset view)
      (λ view' _.
        Safely-bind (λ _. ltb (length view.bytes - offset) (data_size e) ≡ false)
          (λ bytes. length bytes ≡ data_size e)
          (reject_if (ltb (length view.bytes - offset) (data_size e)) format_error) _
          (Safely-reject_if _ format_error)
          (λ _ _.
            Safely-bind (λ p. length p.0 ≡ data_size e) (λ bytes. length bytes ≡ data_size e)
              (view_read (data_size e) view') _ (view_read-Safely (data_size e) view')
              (λ p size. size)))

module _ (c : ByteOrderCrate) (laws : IsByteOrder c) (o : ByteOrder) where
  view_u16-Safely : (view : View) → Safely (λ _. Unit {0}) (view_u16 c o view)
  unfolding view_u16
  view_u16-Safely view =
      Safely-bind (λ p. length p.0 ≡ 2) (λ _. Unit {0}) (view_read 2 view) _
        (view_read-Safely 2 view)
        (λ p size. let (x, e) = laws.returns_u16 o p.0 (omega (arith, size)) in rw e tt)

  view_u32-Safely : (view : View) → Safely (λ _. Unit {0}) (view_u32 c o view)
  unfolding view_u32
  view_u32-Safely view =
      Safely-bind (λ p. length p.0 ≡ 4) (λ _. Unit {0}) (view_read 4 view) _
        (view_read-Safely 4 view)
        (λ p size. let (x, e) = laws.returns_u32 o p.0 (omega (arith, size)) in rw e tt)

  module _ (base_offset : ℕ) where
    load_data-Safely :
        (view : View) (id type_ count : ℕ) (bytes : List ℕ)
        → length bytes ≡ 4
        → Safely
            (λ p. IsReadable p.1)
            (load_data c o base_offset view (new_entry id type_ count bytes))
    unfolding load_data new_entry
    load_data-Safely view id type_ count bytes size =
        let e = new_entry id type_ count bytes in
        let (offset, read) = laws.returns_u32 o bytes (omega (arith, size)) in
        rw read (
          Safely-bind (λ d. length d ≡ data_size e) (λ p. IsReadable p.1)
            (load_data_impl e (offset + base_offset) view) _
            (load_data_impl-Safely e (offset + base_offset) view)
            (λ d all. with_loaded-IsReadable e offset d all))

    load_entry-Safely :
        (view : View) (id type_ count : ℕ) (bytes : List ℕ)
        → length bytes ≡ 4
        → Safely IsReadable (load_entry c o base_offset view (new_entry id type_ count bytes))
    unfolding load_entry is_inline new_entry as_slice
    load_entry-Safely view id type_ count bytes size =
        let e = new_entry id type_ count bytes in
        elim (Bool-cases (leb (data_size e) 4)) [
          | inl f ↦ rw f (inr (omega (arith, leb→le (data_size e) 4 f, size)))
          | inr f ↦ rw f (
              or_error-Safely e (load_data c o base_offset view e)
                (load_data-Safely view id type_ count bytes size))
        ]

    read_entry-Safely :
        (view : View) → Safely (λ p. IsReadable p.0) (read_entry c o base_offset view)
    unfolding read_entry
    read_entry-Safely view =
        Safely-bind (λ _. Unit {0}) (λ p. IsReadable p.0) (view_u16 c o view) _
          (view_u16-Safely view)
          (λ id _.
            Safely-bind (λ _. Unit {0}) (λ p. IsReadable p.0) (view_u16 c o id.1) _
              (view_u16-Safely id.1)
              (λ t _.
                Safely-bind (λ _. Unit {0}) (λ p. IsReadable p.0) (view_u32 c o t.1) _
                  (view_u32-Safely t.1)
                  (λ n _.
                    Safely-bind (λ p. length p.0 ≡ 4) (λ p. IsReadable p.0) (view_read 4 n.1) _
                      (view_read-Safely 4 n.1)
                      (λ b size.
                        Safely-bind IsReadable (λ p. IsReadable p.0)
                          (load_entry c o base_offset b.1 (new_entry id.0 t.0 n.0 b.0)) _
                          (load_entry-Safely b.1 id.0 t.0 n.0 b.0 size) (λ e readable. readable)))))

    read_entries-Safely :
        (left : ℕ) (view : View) (entries : List (ℕ × Entry))
        → AreReadable entries
        → Safely (λ p. AreReadable p.0) (read_entries c o base_offset left view entries)
    unfolding read_entries
    read_entries-Safely zero view entries h = h
    read_entries-Safely (suc left) view entries h =
        Safely-bind (λ p. IsReadable p.0) (λ p. AreReadable p.0) (read_entry c o base_offset view) _
          (read_entry-Safely view)
          (λ p readable.
            read_entries-Safely left p.1 (insert p.0.id p.0 entries)
              (insert-All IsReadable p.0.id p.0 entries readable h))

    -- With a byte order that does what the crate documents: reading a directory at any offset of any
    -- file does not panic, and every entry of a directory that is returned has the data that its type
    -- and count ask for, or is marked as an error.
    pub read_dir-AreReadable :
        (view : View) (dir_offset : ℕ)
        → Safely (λ dir. AreReadable dir.entries) (read_dir c o base_offset view dir_offset)
    unfolding read_dir
    read_dir-AreReadable view dir_offset =
        Safely-bind (λ _. Unit {0}) (λ dir. AreReadable dir.entries) (seek dir_offset view) _
          (seek-Safely dir_offset view)
          (λ view0 _.
            Safely-bind (λ _. Unit {0}) (λ dir. AreReadable dir.entries) (view_u16 c o view0) _
              (view_u16-Safely view0)
              (λ n _.
                Safely-bind (λ p. AreReadable p.0) (λ dir. AreReadable dir.entries)
                  (read_entries c o base_offset (if ltb n.0 0x8000 then n.0 else 0) n.1 []) _
                  (read_entries-Safely (if ltb n.0 0x8000 then n.0 else 0) n.1 [] tt)
                  (λ p readable.
                    Safely-bind (λ _. Unit {0}) (λ dir. AreReadable dir.entries) (view_u32 c o p.1)
                      _ (view_u32-Safely p.1) (λ next _. readable))))
