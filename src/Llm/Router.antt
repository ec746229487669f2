-- ===== src/Llm/Router.antt =====
-- internal/platform/llm/router.go, llm.go, and internal/platform/systemone/router.go: the choice of a
-- provider by the prefix of a model reference. A provider is a value of any type.
use yet_another_go_boilerpla.Base.{
  ℕ, ◌≡◌, ◌↔◌, ==_iff, refl, inl, inr, false, ◌||◌, Option, none, some, [], ◌∷◌, ◌++◌, arith, ◌==◌,
  if◌then◌else◌, Text, contains, cut, cut-append, is_empty, Dict, lookup, Bool-cases, Option-cases,
  Outcome, ok, err,
}

abbrev slash : ℕ
slash = 47

-- The error for a reference without two parts, and ErrUnknownProvider.
pub data RouteError : Type 0 where
  malformed unknown_provider : RouteError

cut_parts :
    (s a b : Text) → cut slash s ≡ some (a, b) → (s ≡ a ++ slash ∷ b) × (contains slash a ≡ false)
cut_parts [] a b h = absurd (ground (arith, h))
cut_parts (c ∷ s) a b h = elim (Bool-cases (c == slash)) [
  | inl e ↦ ground (arith, e, h, (==_iff c slash).0 e)
  | inr e ↦ elim (Option-cases (cut slash s)) [
    | inl f ↦ absurd (ground (arith, e, f, h))
    | inr ((x, y), f) ↦ ground (arith, e, f, h, cut_parts s x y f)
  ]
]

module _ {ℓ} {P : Type ℓ} where
  abbrev pub with_model : Text → Option P → Outcome RouteError (P × Text)
  with_model model none = err unknown_provider
  with_model model (some p) = ok (p, model)

  abbrev pub resolve_parts : Dict P → Option (Text × Text) → Outcome RouteError (P × Text)
  resolve_parts providers none = err malformed
  resolve_parts providers (some (name, model)) =
      if is_empty name || is_empty model
      then err malformed
      else with_model model (lookup name providers)

  -- Router.Resolve
  unfoldable pub resolve : Dict P → Text → Outcome RouteError (P × Text)
  resolve providers ref = resolve_parts providers (cut slash ref)

  with_model_ok :
      (model : Text) (o : Option P) (p : P) (m : Text)
      → with_model model o ≡ ok (p, m)
      → (o ≡ some p) × (model ≡ m)
  with_model_ok model none p m h = absurd (ground (arith, h))
  with_model_ok model (some q) p m h = ground (arith, h)

  resolve_parts_ok :
      (providers : Dict P) (o : Option (Text × Text)) (p : P) (model : Text)
      → resolve_parts providers o ≡ ok (p, model)
      → (name : Text) × (o ≡ some (name, model))
        × (is_empty name ≡ false)
        × (is_empty model ≡ false)
        × (lookup name providers ≡ some p)
  resolve_parts_ok providers none p model h = absurd (ground (arith, h))
  resolve_parts_ok providers (some (name, m)) p model h =
      elim (Bool-cases (is_empty name || is_empty m)) [
        | inl e ↦ absurd (ground (arith, e, h))
        | inr e ↦
            let (found, same) =
              with_model_ok m (lookup name providers) p model (ground (arith, e, h)) in
            (name, ground (arith, same), ground (arith, e), ground (arith, e, same), found)
      ]

  resolve_ok :
      (providers : Dict P) (ref : Text) (p : P) (model : Text)
      → resolve providers ref ≡ ok (p, model)
      → (name : Text) × (ref ≡ name ++ slash ∷ model)
        × (contains slash name ≡ false)
        × (is_empty name ≡ false)
        × (is_empty model ≡ false)
        × (lookup name providers ≡ some p)
  unfolding resolve
  resolve_ok providers ref p model h =
      let (name, split, named, modelled, found) =
        resolve_parts_ok providers (cut slash ref) p model h in
      let (whole, plain) = cut_parts ref name model split in
      (name, whole, plain, named, modelled, found)

  -- Resolve gives a provider and a model just for a reference of a name without a slash, a slash and a
  -- model, neither empty, where the name is that of the provider; the model may contain slashes.
  pub resolve_iff :
      (providers : Dict P) (ref : Text) (p : P) (model : Text)
      → (resolve providers ref ≡ ok (p, model)) ↔ (
          (name : Text) × (ref ≡ name ++ slash ∷ model)
          × (contains slash name ≡ false)
          × (is_empty name ≡ false)
          × (is_empty model ≡ false)
          × (lookup name providers ≡ some p))
  unfolding resolve
  resolve_iff providers ref p model = (
    resolve_ok providers ref p model,
    λ (name, whole, plain, named, modelled, found).
        rw (whole, cut-append slash name model plain, named, modelled, found) refl,
  )
