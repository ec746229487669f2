-- ===== src/Web/Recorder/Status.antt =====
-- One final status goes out, and the recorder knows it.
use yet_another_go_boilerpla.Base.{
  ℕ, ◌≡◌, ◌⊎◌, refl, inl, inr, true, false, not, List, [], ◌∷◌, arith, keep, Bool-cases,
}
use yet_another_go_boilerpla.Web.Recorder.Defs.{
  StatusRecorder, new_recorder, is_informational, write_header, write, flush_error, Call, call,
  calls,
}

-- The final statuses that the client got.
abbrev pub finals : StatusRecorder → List ℕ
finals r = keep (λ s. not (is_informational s)) r.sent

-- The response has not started, and the client got no final status; or it got just that of the
-- recorder.
abbrev pub IsFaithful : StatusRecorder → Type 0
IsFaithful r =
    ((r.wrote_header ≡ false) × (r.status ≡ 200) × (finals r ≡ []))
    ⊎ ((r.wrote_header ≡ true) × (finals r ≡ r.status ∷ []))

write_header-IsFaithful :
    (status : ℕ) (r : StatusRecorder) → IsFaithful r → IsFaithful (write_header status r)
unfolding write_header
write_header-IsFaithful status r (inr (w, f)) = ground arith
write_header-IsFaithful status r (inl (w, s, f)) = elim (Bool-cases (is_informational status)) [
  | inl e ↦ ground arith
  | inr e ↦ ground arith
]

call-IsFaithful : (c : Call) (r : StatusRecorder) → IsFaithful r → IsFaithful (call c r)
unfolding write flush_error
call-IsFaithful (Call.header status) r h = write_header-IsFaithful status r h
call-IsFaithful Call.body r h = elim (Bool-cases r.wrote_header) [
  | inl e ↦ ground arith
  | inr e ↦ ground (arith, write_header-IsFaithful 200 r h)
]
call-IsFaithful Call.flush r h = elim (Bool-cases r.wrote_header) [
  | inl e ↦ ground arith
  | inr e ↦ ground (arith, write_header-IsFaithful 200 r h)
]

calls_from : (cs : List Call) (r : StatusRecorder) → IsFaithful r → IsFaithful (calls cs r)
calls_from [] r h = h
calls_from (c ∷ cs) r h = calls_from cs (call c r) (call-IsFaithful c r h)

-- Whatever a handler calls, the client gets no final status before the recorder has written the
-- header, and after that just one, the status of the recorder.
pub calls-IsFaithful : (cs : List Call) → IsFaithful (calls cs new_recorder)
calls-IsFaithful cs = calls_from cs new_recorder (inl (refl, refl, refl))
