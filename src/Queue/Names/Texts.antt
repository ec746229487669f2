-- ===== src/Queue/Names/Texts.antt =====
-- The texts that queue.go makes for the dead letter queue, and the names that it accepts.
use yet_another_go_boilerpla.Base.{
  ℕ, zero, suc, ◌≤◌, ◌≡◌, refl, inl, inr, true, false, [], ◌∷◌, arith, leb, length, take, Text,
  contains, valid_string, to_valid_utf8, length-take, to_valid_utf8-valid, drop_nul,
  valid_string-drop_nul, leb→le, Bool-cases,
}
use yet_another_go_boilerpla.Queue.Names.Defs.{cut_back, error_text, max_error_bytes}

cut_back-valid : (n : ℕ) (s : Text) → valid_string (cut_back n s) ≡ true
unfolding cut_back
cut_back-valid zero s = refl
cut_back-valid (suc n) s = ground (arith, cut_back-valid n s)

cut_back-le : (n : ℕ) (s : Text) → length (cut_back n s) ≤ n
unfolding cut_back
cut_back-le zero s = omega arith
cut_back-le (suc n) s = ground (arith, cut_back-le n s, length-take (suc n) s)

-- A cut text is a beginning of the text.
contains-take : (c n : ℕ) (s : Text) → contains c s ≡ false → contains c (take n s) ≡ false
contains-take c zero s h = refl
contains-take c (suc n) [] h = refl
contains-take c (suc n) (x ∷ s) h = ground (arith, contains-take c n s)

contains-cut_back : (c n : ℕ) (s : Text) → contains c s ≡ false → contains c (cut_back n s) ≡ false
unfolding cut_back
contains-cut_back c zero s h = refl
contains-cut_back c (suc n) s h = ground (arith, contains-take c (suc n) s, contains-cut_back c n s)

contains-drop_nul : (s : Text) → contains 0 (drop_nul s) ≡ false
contains-drop_nul [] = refl
contains-drop_nul (c ∷ s) = ground (arith, contains-drop_nul s)

-- Whatever the bytes of an error text, errorText gives valid UTF-8 of at most `max_error_bytes`
-- bytes with no NUL.
pub error_text_storable :
    (message : Text)
    → (valid_string (error_text message) ≡ true)
      × (length (error_text message) ≤ max_error_bytes)
      × (contains 0 (error_text message) ≡ false)
unfolding error_text
error_text_storable message =
    let s = drop_nul (to_valid_utf8 message) in
    let valid = valid_string-drop_nul (to_valid_utf8 message) (to_valid_utf8-valid message) in
    let clean = contains-drop_nul (to_valid_utf8 message) in
    elim (Bool-cases (leb (length s) max_error_bytes)) [
      | inl e ↦ rw e (valid, leb→le _ _ e, clean)
      | inr e ↦ rw e (
        cut_back-valid max_error_bytes s,
        cut_back-le max_error_bytes s,
        contains-cut_back 0 max_error_bytes s clean,
      )
    ]
