-- ===== src/Llm/ChatCompletions/Chunks.antt =====
-- What the data lines of a stream hold, apart from the order in which the adapter does its work
-- (internal/platform/llm/chatcompletions/chatcompletions.go).
use yet_another_go_boilerpla.Base.{
  ◌≡◌, refl, ap, ◌∙◌, Bool, true, false, Option, none, some, List, [], ◌∷◌, if◌then◌else◌, Text,
  lit, eq_text, is_empty,
}
use yet_another_go_boilerpla.Llm.Fake.{Usage}
use yet_another_go_boilerpla.Llm.Lines.{data_of}
use yet_another_go_boilerpla.Llm.ChatCompletions.Defs.{ApiChoice, ApiChunk, Json}

abbrev pub put_chunk : Option ApiChunk → List ApiChunk → List ApiChunk
put_chunk none cs = cs
put_chunk (some c) cs = c ∷ cs

abbrev pub finish_or : Text → List ApiChoice → Text
finish_or before [] = before
finish_or before (c ∷ cs) = if is_empty c.finish_reason then before else c.finish_reason

abbrev pub usage_or : Usage → Option Usage → Usage
usage_or before none = before
usage_or before (some usage) = usage

abbrev chunks_at : Json → Option Text → List ApiChunk → List ApiChunk
chunks_at json none rest = rest
chunks_at json (some d) rest =
    if eq_text d (lit "[DONE]") then [] else put_chunk (json.chunk d) rest

-- The chunks that the data lines up to the line that ends the stream hold.
unfoldable pub chunks_of : Json → List (Text × Bool) → List ApiChunk
chunks_of json [] = []
chunks_of json ((l, early) ∷ ls) = chunks_at json (data_of l) (chunks_of json ls)

pub chunks_of-end : (json : Json) → chunks_of json [] ≡ []
unfolding chunks_of
chunks_of-end json = refl

pub chunks_of-skip :
    (json : Json) (l : Text) (early : Bool) (ls : List (Text × Bool))
    → data_of l ≡ none
    → chunks_of json ((l, early) ∷ ls) ≡ chunks_of json ls
unfolding chunks_of
chunks_of-skip json l early ls h = ap (λ o. chunks_at json o (chunks_of json ls)) h

pub chunks_of-done :
    (json : Json) (l : Text) (early : Bool) (ls : List (Text × Bool)) (d : Text)
    → data_of l ≡ some d
    → eq_text d (lit "[DONE]") ≡ true
    → chunks_of json ((l, early) ∷ ls) ≡ []
unfolding chunks_of
chunks_of-done json l early ls d h e = ap (λ o. chunks_at json o (chunks_of json ls)) h ∙ rw e refl

pub chunks_of-more :
    (json : Json) (l : Text) (early : Bool) (ls : List (Text × Bool)) (d : Text)
    → data_of l ≡ some d
    → eq_text d (lit "[DONE]") ≡ false
    → chunks_of json ((l, early) ∷ ls) ≡ put_chunk (json.chunk d) (chunks_of json ls)
unfolding chunks_of
chunks_of-more json l early ls d h e = ap (λ o. chunks_at json o (chunks_of json ls)) h ∙ rw e refl

-- The last finish reason in the first choices of the chunks, that is not empty; or the one before them.
abbrev pub last_finish : Text → List ApiChunk → Text
last_finish before [] = before
last_finish before (c ∷ cs) = last_finish (finish_or before c.choices) cs

-- The last usage in the chunks, or the one before them.
abbrev pub last_usage : Usage → List ApiChunk → Usage
last_usage before [] = before
last_usage before (c ∷ cs) = last_usage (usage_or before c.usage) cs
