-- ===== src/Tiff/Dir/Chain.antt =====
-- The chain of directories: when it ends, and that it does not end on a cycle.
use libopenraw.Prelude.{
  ℕ, zero, suc, ◌+◌, ◌-◌, ◌≤◌, ◌<◌, ◌≡◌, ◌≢◌, ◌⊎◌, inl, inr, refl, sym, ◌∙◌, List, [], ◌∷◌, ◌++◌,
  length, ◌==◌, ne→==, ltb, lt→ltb, ltb→lt, ltb→ge, Bool-cases, Result, ok, err, panic, io_error,
  arith,
}
use libopenraw.Io.{ByteOrder, ByteOrderCrate, View, seek}
use libopenraw.Tiff.Dir.{Dir, read_dir, with_dir, dirs_from}

module _ (c : ByteOrderCrate) (o : ByteOrder) (view : View) where
  -- Where some offsets other than 0 have directories whose next offsets are among them again, the
  -- loop that starts at one of them never returns: with any number of rounds it is still under way.
  pub dirs_from_cycle :
      (P : ℕ → Type 0)
      → ((offset : ℕ)
          → P offset
          → (offset ≢ 0) × (dir : Dir) × (read_dir c o 0 view offset ≡ ok dir) × P dir.next)
      → (late : Result (List Dir)) (rounds offset : ℕ) (dirs : List Dir) → P offset
      → dirs_from c o view late rounds offset dirs ≡ late
  unfolding dirs_from with_dir
  dirs_from_cycle P closed late zero offset dirs p = refl
  dirs_from_cycle P closed late (suc rounds) offset dirs p =
      let (nonzero, dir, readable, again) = closed offset p in
      rw (ne→== offset 0 nonzero, readable)
        (dirs_from_cycle P closed late rounds dir.next (dirs ++ dir ∷ []) again)

  past_the_end :
      (offset : ℕ) → length view.bytes < offset → read_dir c o 0 view offset ≡ err io_error
  unfolding read_dir seek
  past_the_end offset past = rw (lt→ltb (length view.bytes) offset past) refl

  in_file :
      (dir : Dir) (offset : ℕ) → read_dir c o 0 view offset ≡ ok dir → offset ≤ length view.bytes
  in_file dir offset e = elim (Bool-cases (ltb (length view.bytes) offset)) [
    | inl past ↦
        let fails = past_the_end offset (ltb→lt (length view.bytes) offset past) in absurd cc
    | inr inside ↦ ltb→ge (length view.bytes) offset inside
  ]

  at_zero :
      (late : Result (List Dir)) (rounds offset : ℕ) (dirs : List Dir)
      → offset ≡ 0
      → 1 ≤ rounds
      → dirs_from c o view late rounds offset dirs ≡ ok dirs
  unfolding dirs_from
  at_zero late zero offset dirs e h = absurd (omega (arith, h))
  at_zero late (suc rounds) offset dirs e h = rw e refl

  -- Where the next offset of the directory at each of some offsets is 0, or goes forward to one of
  -- them again, the loop that starts at one of them ends: with any two numbers of rounds that are more
  -- than two and the bytes that are left, what it returns is the same, so that what it would give
  -- without rounds left does not matter.
  pub dirs_from_rounds :
      (P : ℕ → Type 0)
      → ((offset : ℕ) (dir : Dir)
          → P offset
          → read_dir c o 0 view offset ≡ ok dir
          → (dir.next ≡ 0) ⊎ ((offset < dir.next) × P dir.next))
      → (late late' : Result (List Dir)) (rounds rounds' offset : ℕ) (dirs : List Dir) → P offset
      → length view.bytes + 1 - offset + 1 < rounds
      → length view.bytes + 1 - offset + 1 < rounds'
      → dirs_from c o view late rounds offset dirs ≡ dirs_from c o view late' rounds' offset dirs
  unfolding dirs_from
  dirs_from_rounds P forward late late' zero rounds' offset dirs p h k = elim h [ ]
  dirs_from_rounds P forward late late' (suc rounds) zero offset dirs p h k = elim k [ ]
  dirs_from_rounds P forward late late' (suc rounds) (suc rounds') offset dirs p h k =
      elim (Bool-cases (offset == 0)) [
        | inl e ↦ rw e refl
        | inr e ↦ rw e (
            go_on (read_dir c o 0 view offset) refl (λ next ds q h' k'.
              dirs_from_rounds P forward late late' rounds rounds' next ds q h' k'))
      ]
    where
      go_on :
          (m : Result Dir)
          → read_dir c o 0 view offset ≡ m
          → ((next : ℕ) (ds : List Dir)
              → P next
              → length view.bytes + 1 - next + 1 < rounds
              → length view.bytes + 1 - next + 1 < rounds'
              → dirs_from c o view late rounds next ds ≡ dirs_from c o view late' rounds' next ds)
          → with_dir c o view m dirs (dirs_from c o view late rounds)
            ≡ with_dir c o view m dirs (dirs_from c o view late' rounds')
      go_on (err code) e later = unfold with_dir in refl
      go_on panic e later = unfold with_dir in refl
      go_on (ok dir) e later =
          unfold with_dir in
          (elim (forward offset dir p e) [
            | inl last ↦
                at_zero late rounds dir.next (dirs ++ dir ∷ []) last (omega (arith, h))
                ∙ sym (at_zero late' rounds' dir.next (dirs ++ dir ∷ []) last (omega (arith, k)))
            | inr (further, again) ↦
                let inside = in_file dir offset e in
                later dir.next (dirs ++ dir ∷ []) again (omega (arith, h, further, inside))
                  (omega (arith, k, further, inside))
          ])
