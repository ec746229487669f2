-- ===== src/Llm/Examples.antt =====
-- Tests of the router and of fake/echo, and their theorems at concrete requests.
use yet_another_go_boilerpla.Base.{
  ℕ, ◌≤◌, ◌≡◌, ◌↔◌, refl, false, some, [], ◌∷◌, ◌++◌, Text, lit, contains, is_empty, Dict, lookup,
  take, ok,
}
use yet_another_go_boilerpla.Llm.Router.{resolve, resolve_iff}
use yet_another_go_boilerpla.Llm.Fake.{
  Role, Request, Response, last_user_text, stream, stop_end, collect, join, words_of, count_words,
  stream-collect,
}

abbrev providers : Dict ℕ
providers = (lit "fake", 1) ∷ (lit "local", 2) ∷ []

resolves_with_slash : resolve providers (lit "local/a/b") ≡ ok (2, lit "a/b")
unfolding resolve
resolves_with_slash = refl

resolve_iff_example : (resolve providers (lit "local/a/b") ≡ ok (2, lit "a/b")) ↔ (
    (name : Text) × (lit "local/a/b" ≡ name ++ 47 ∷ lit "a/b")
    × (contains 47 name ≡ false)
    × (is_empty name ≡ false)
    × (is_empty (lit "a/b") ≡ false)
    × (lookup name providers ≡ some 2))
resolve_iff_example = resolve_iff providers (lit "local/a/b") 2 (lit "a/b")

abbrev request : Request
request = record {
  model = lit "echo";
  system = lit "Be brief.";
  messages = record { role = Role.user; text = lit "one two three" } ∷ [];
  max_tokens = 2;
}

counts_five : count_words request ≡ 5
unfolding count_words
counts_five = refl

stream-collect_example :
    (resp : Response) × (stream (λ i. false) collect request [] ≡ (ok resp, resp.text))
    × (resp.text ≡ join (take 2 (words_of (lit "one two three"))))
    × (resp.usage.output_tokens ≤ 2)
    × ((resp.stop_reason ≡ stop_end) → resp.text ≡ lit "one two three")
unfolding last_user_text
stream-collect_example = stream-collect request (lit "one two three") refl refl refl
