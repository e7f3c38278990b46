-- ===== src/Providers/Covered.antt =====
-- That both versions find their provider in the map that `build_providers` returns.
use eval_ops.Prelude.{
  String, ◌≡◌, refl, sym, ap, ◌∙◌, subst, true, Option, none, some, List, [], ◌∷◌, map, Exists, ◌↔◌,
  inl, inr, if◌then◌else◌, Bool-cases,
}
use eval_ops.Result.{
  ok, ok_inj, Exists-traverse, config_error, map_ok-inv, >>=-eq-ok, >>-eq-ok, raise_if,
}
use eval_ops.Double.{Double, zero_f}
use eval_ops.Domain.Enums.{ProviderName, openai, anthropic, ollama}
use eval_ops.Domain.Entities.{SystemVersion}
use eval_ops.Providers.Registry.{
  Adapter, mock_adapter, ollama_adapter, openai_adapter, anthropic_adapter, adapter_of,
  resolved_url, Backend, mock, live, real, ExecutionSpec, same_provider, both_names, used_names,
  provider_entry, real_providers, build_providers, make_provider, require_api_key,
  validate_generation_params,
}

same_provider_eq : (p q : ProviderName) → same_provider p q ≡ true → p ≡ q
same_provider_eq openai openai h = refl
same_provider_eq anthropic anthropic h = refl
same_provider_eq ollama ollama h = refl
same_provider_eq openai anthropic h = cc h
same_provider_eq openai ollama h = cc h
same_provider_eq anthropic openai h = cc h
same_provider_eq anthropic ollama h = cc h
same_provider_eq ollama openai h = cc h
same_provider_eq ollama anthropic h = cc h

module _ {W : Type 0} where
  -- The provider that the class of an adapter speaks to.
  abbrev pub adapter_provider : Adapter W → Option ProviderName
  adapter_provider mock_adapter = none
  adapter_provider (ollama_adapter url timeout) = some ollama
  adapter_provider (openai_adapter url timeout) = some openai
  adapter_provider (anthropic_adapter url timeout) = some anthropic

  -- An adapter that fits a backend and a provider: the mock for the mock, else the provider's own.
  abbrev pub Fits : Backend → ProviderName → Adapter W → Type 0
  Fits mock p a = a ≡ mock_adapter
  Fits live p a = adapter_provider a ≡ some p
  Fits (real target) p a = adapter_provider a ≡ some p

  abbrev pub Serves : Backend → ProviderName → ProviderName × Adapter W → Type 0
  Serves backend p entry = (entry.0 ≡ p) × Fits backend p entry.1

-- The class that is chosen is that of the provider.
adapter_of-adapter_provider :
    {W : Type 0} (name : ProviderName) (url : String) (timeout : W) (a : Adapter W)
    → adapter_of name url timeout ≡ ok a
    → adapter_provider a ≡ some name
unfolding adapter_of
adapter_of-adapter_provider ollama url timeout a h = sym (ap adapter_provider (ok_inj h))
adapter_of-adapter_provider openai url timeout a h = sym (ap adapter_provider (ok_inj h))
adapter_of-adapter_provider anthropic url timeout a h = sym (ap adapter_provider (ok_inj h))

both_have :
    (p q : ProviderName)
    → Exists (λ n. n ≡ p) (both_names p q) × Exists (λ n. n ≡ q) (both_names p q)
both_have p q = elim (Bool-cases (same_provider p q)) [
  | inl h ↦ rw h (inl refl, inl (same_provider_eq p q h))
  | inr h ↦ rw h (inl refl, inr (inl refl))
]

mock-Serves :
    (W : Type 0) (p : ProviderName) (names : List ProviderName)
    → Exists (λ n. n ≡ p) names
    → Exists (Serves {W = W} mock p) (map (λ n. (n, mock_adapter)) names)
mock-Serves W p [] h = absurd h
mock-Serves W p (n ∷ names) (inl h) = inl (h, refl)
mock-Serves W p (n ∷ names) (inr h) = inr (mock-Serves W p names h)

module _ {W : Type 0} ⦃d : Double W⦄ where
  used_have :
      (backend : Backend) (b c : SystemVersion W) (used : List ProviderName)
      → used_names backend b c ≡ ok used
      → Exists (λ n. n ≡ b.provider) used × Exists (λ n. n ≡ c.provider) used
  used_have mock b c used h =
      subst
        (λ (u : List ProviderName). Exists (λ n. n ≡ b.provider) u × Exists (λ n. n ≡ c.provider) u)
        (ok_inj h) (both_have b.provider c.provider)
  used_have live b c used h =
      subst
        (λ (u : List ProviderName). Exists (λ n. n ≡ b.provider) u × Exists (λ n. n ≡ c.provider) u)
        (ok_inj h) (both_have b.provider c.provider)
  used_have (real target) b c used h = elim (Bool-cases (same_provider b.provider target)) [
    | inr other ↦ cc (rw (used_names, other) at h)
    | inl first ↦ elim (Bool-cases (same_provider c.provider target)) [
      | inr other ↦ cc (rw (used_names, first, other) at h)
      | inl second ↦
          subst
            (λ (u : List ProviderName).
              Exists (λ n. n ≡ b.provider) u × Exists (λ n. n ≡ c.provider) u)
            (ok_inj (rw (used_names, first, second) at h))
            (
              inl (sym (same_provider_eq b.provider target first)),
              inl (sym (same_provider_eq c.provider target second)),
            )
    ]
  ]

module _ {W : Type 0} ⦃d : Double W⦄ (environ : String → Option String) where
  entry-Serves :
      (spec : ExecutionSpec W) (p name : ProviderName) (entry : ProviderName × Adapter W)
      → provider_entry environ spec name ≡ ok entry
      → Serves live p entry ↔ (name ≡ p)
  unfolding provider_entry make_provider
  entry-Serves spec p name entry h =
      let url = if same_provider name ollama then some spec.base_url else none in
      let (adapter, made, same) =
        map_ok-inv (λ (a : Adapter W). (name, a))
          (make_provider environ name url spec.timeout_seconds) entry h in
      let (resolved, _, rest) = >>=-eq-ok (resolved_url url name) _ (
        >>-eq-ok
          (raise_if (d.le spec.timeout_seconds zero_f)
            (config_error "provider timeout_seconds must be greater than 0"))
          _ made) in
      let kind =
        adapter_of-adapter_provider name resolved spec.timeout_seconds adapter
          (>>-eq-ok (require_api_key environ name) _ rest) in
      subst (λ (e : ProviderName × Adapter W). Serves live p e ↔ (name ≡ p)) (sym same)
        (λ s. s.0, λ e. (e, kind ∙ ap some e))

  real_have :
      (spec : ExecutionSpec W) (b c : SystemVersion W) (ps : List (ProviderName × Adapter W))
      → real_providers environ spec b c ≡ ok ps
      → Exists (Serves live b.provider) ps × Exists (Serves live c.provider) ps
  unfolding real_providers
  real_have spec b c ps h =
      let h1 =
        >>-eq-ok
          (raise_if (d.le spec.timeout_seconds zero_f)
            (config_error "execution timeout_seconds must be greater than 0"))
          _ h in
      let (used, names, h2) = >>=-eq-ok (used_names spec.backend b c) _ h1 in
      let entries =
        >>-eq-ok (validate_generation_params c) _ (>>-eq-ok (validate_generation_params b) _ h2) in
      let (first, second) = used_have spec.backend b c used names in
      let serves = λ (p : ProviderName).
        Exists-traverse (provider_entry environ spec) (λ n. n ≡ p) (Serves live p)
          (entry-Serves spec p) used ps entries in
      ((serves b.provider).1 first, (serves c.provider).1 second)

  -- When the providers of an execution are built, each of the two versions finds its own among
  -- them: the mock if that is the backend, else the adapter of the provider it declares.
  pub build_providers-cover :
      (spec : ExecutionSpec W) (b c : SystemVersion W) (ps : List (ProviderName × Adapter W))
      → build_providers environ spec b c ≡ ok ps
      → Exists (Serves spec.backend b.provider) ps × Exists (Serves spec.backend c.provider) ps
  unfolding build_providers
  build_providers-cover spec b c ps h = covered spec.backend h
    where
      covered :
          (backend : Backend)
          → build_providers environ (record spec { backend = backend }) b c ≡ ok ps
          → Exists (Serves backend b.provider) ps × Exists (Serves backend c.provider) ps
      covered mock k =
          let (first, second) = both_have b.provider c.provider in
          let names = both_names b.provider c.provider in
          subst
            (λ (es : List (ProviderName × Adapter W)).
              Exists (Serves mock b.provider) es × Exists (Serves mock c.provider) es)
            (ok_inj k) (mock-Serves W b.provider names first, mock-Serves W c.provider names second)
      covered live k = real_have (record spec { backend = live }) b c ps k
      covered (real target) k = real_have (record spec { backend = real target }) b c ps k
