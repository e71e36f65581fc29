-- ===== src/Slab/Scan.antt =====
-- The search of `priskv_slab_alloc` for a word that is not 0.
use pris_kv.Base.{
  ℕ, zero, suc, ◌+◌, ◌≤◌, ◌<◌, ◌≡◌, ◌⊎◌, inl, inr, arith, none, some, true, false, List, get_elem?,
  length, Bool-cases, get_elem?_of_lt, refl, sym, ap, ◌∙◌, ℕ_discrete,
}
use pris_kv.Slab.{Word, is_zero, scan}

-- Either the search finds a word of the bitmap that is not 0, or each word that it covers is 0.
pub scan_lem :
    (rounds index : ℕ) (ws : List Word)
    → index + rounds ≤ length ws
    → ((j : ℕ) × (w : Word) × (scan rounds index ws ≡ some (j, w))
        × (get_elem? ws j ≡ some w)
        × (is_zero w ≡ false)
        × (j < length ws))
      ⊎ ((scan rounds index ws ≡ none)
          × ((j : ℕ) (w : Word)
              → index ≤ j
              → j < index + rounds
              → get_elem? ws j ≡ some w
              → is_zero w ≡ true))
unfolding scan
scan_lem zero index ws h = inr (refl, λ j w lo hi e. absurd (omega arith))
scan_lem (suc rounds) index ws h =
    let (w, e) = get_elem?_of_lt ws index (omega arith) in
    elim (Bool-cases (is_zero w)) [
      | inr f ↦ inl (index, w, rw (e, scan, f) refl, e, f, omega arith)
      | inl z ↦ elim (scan_lem rounds (index + 1) ws (omega arith)) [
        | inl (j, u, found, at, f, lt) ↦ inl (j, u, rw (e, scan, z) found, at, f, lt)
        | inr (none_found, all) ↦ inr (
          rw (e, scan, z) none_found,
          λ j u lo hi at. elim (ℕ_discrete j index) [
            | yes same ↦
                let word : w ≡ u = cc (e, at, ap (get_elem? ws) same) in sym (ap is_zero word) ∙ z
            | no ne ↦ all j u (omega arith) (omega arith) at
          ],
        )
      ]
    ]
