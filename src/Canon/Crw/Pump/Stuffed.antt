-- ===== src/Canon/Crw/Pump/Stuffed.antt =====
-- Bytes with the zeros that follow 0xff, as the pump reads them.
use libopenraw.Prelude.{
  ℕ, ◌+◌, ◌≤◌, ◌<◌, ◌≡◌, refl, sym, ap, ◌∙◌, inl, inr, Bool, Bool-cases, List, ◌∷◌, ◌++◌, ◌==◌, All,
  length, length-drop, drop, drop-drop, le→leb, ok, index, arith,
}
use libopenraw.Io.{View, view_read}
use libopenraw.BitSource.{low_bits, bytes_bits, stuff}
use libopenraw.Canon.Crw.Pump.{BitPump, view_u8, pass_zero}

-- The bits that the pump holds, and those of the bytes that it has not loaded.
abbrev pub pending : BitPump → List ℕ → List Bool
pending pump ws = low_bits pump.vbits pump.bitbuf ++ bytes_bits ws

-- The file goes on with the bytes `ws`, stuffed, and then `tail`.
pub record IsAt (tail : List ℕ) (bytes : List ℕ) (view : View) (ws : List ℕ) : Type 0 where
  pub whole : view.bytes ≡ bytes
  pub left : drop view.pos view.bytes ≡ stuff ws ++ tail
  pub words : All (λ w. w < 256) ws

pub view_u8_lem :
    (view : View) (b : ℕ) (rest : List ℕ)
    → drop view.pos view.bytes ≡ b ∷ rest
    → (view_u8 view ≡ ok (b, record view { pos = view.pos + 1 }))
      × (drop (view.pos + 1) view.bytes ≡ rest)
unfolding view_u8 view_read index
view_u8_lem view b rest e =
    let room : view.pos + 1 ≤ length view.bytes =
      omega (arith, ap length e, length-drop view.pos view.bytes) in
    (
      rw (le→leb (view.pos + 1) (length view.bytes) room, e) refl,
      drop-drop view.bytes view.pos 1 ∙ ap (drop 1) e,
    )

-- One byte, with the zero that may follow it.
pub record HasByte (tail bytes : List ℕ) (w : ℕ) (ws : List ℕ) (view : View) : Type 0 where
  pub behind : View
  pub after : View
  pub loads : view_u8 view ≡ ok (w, behind)
  pub passes : pass_zero w behind ≡ ok after
  pub at : IsAt tail bytes after ws

pub view_u8-HasByte :
    (tail bytes : List ℕ) (w : ℕ) (ws : List ℕ) (view : View)
    → IsAt tail bytes view (w ∷ ws)
    → HasByte tail bytes w ws view
unfolding pass_zero
view_u8-HasByte tail bytes w ws view at = elim (Bool-cases (w == 0xff)) [
  | inr e ↦
      let one = view_u8_lem view w (stuff ws ++ tail) (rw e at at.left) in
      record {
        behind = record view { pos = view.pos + 1 };
        after = record view { pos = view.pos + 1 };
        loads = one.0;
        passes = rw e refl;
        at = record { whole = at.whole; left = one.1; words = at.words.1 };
      }
  | inl e ↦
      let is_ff : w ≡ 255 = ground (arith, e) in
      let one = view_u8_lem view 255 (0 ∷ stuff ws ++ tail) (rw e at at.left) in
      let two = view_u8_lem (record view { pos = view.pos + 1 }) 0 (stuff ws ++ tail) one.1 in
      record {
        behind = record view { pos = view.pos + 1 };
        after = record view { pos = view.pos + 1 + 1 };
        loads = one.0 ∙ ap (λ b. ok (b, record view { pos = view.pos + 1 })) (sym is_ff);
        passes = rw (e, two.0) refl;
        at = record { whole = at.whole; left = two.1; words = at.words.1 };
      }
]
