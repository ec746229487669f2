-- ===== src/Web/Recorder/Examples.antt =====
-- The theorem on the status recorder at a concrete handler.
use yet_another_go_boilerpla.Base.{[], ◌∷◌}
use yet_another_go_boilerpla.Web.Recorder.Defs.{new_recorder, Call, calls}
use yet_another_go_boilerpla.Web.Recorder.Status.{IsFaithful, calls-IsFaithful}

calls-IsFaithful_example :
    IsFaithful
      (calls (Call.header 103 ∷ Call.header 404 ∷ Call.body ∷ Call.header 500 ∷ []) new_recorder)
calls-IsFaithful_example =
    calls-IsFaithful (Call.header 103 ∷ Call.header 404 ∷ Call.body ∷ Call.header 500 ∷ [])
