-- ===== src/Web/Stream/Examples.antt =====
-- An event of two lines, and a name that Send rejects.
use yet_another_go_boilerpla.Base.{◌≡◌, refl, [], ◌∷◌, ◌++◌, lit, err}
use yet_another_go_boilerpla.Web.Stream.Defs.{EventStream, line_break, event_text, send}

abbrev new_stream : EventStream
new_stream = record { sent = []; deliveries = [] }

two_lines :
    event_text (lit "delta") (lit "a" ++ 13 ∷ lit "b")
    ≡ lit "event: delta" ++ 10 ∷ lit "data: a" ++ 10 ∷ lit "data: b" ++ 10 ∷ 10 ∷ []
unfolding event_text yet_another_go_boilerpla.Web.Stream.Defs.replace_cr
    yet_another_go_boilerpla.Web.Stream.Defs.replace_crlf
two_lines = refl

rejects_break : send (lit "a" ++ 10 ∷ []) (lit "b") new_stream ≡ (err line_break, new_stream)
unfolding send
rejects_break = refl
