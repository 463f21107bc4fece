-- ===== src/Api/OpenaiRequests/Models.antt =====
-- The model names that are served.
use ragent.Common.{
  String, ◌≡◌, refl, sym, ap, ◌∙◌, subst, ◌⊎◌, inl, inr, true, false, ◌||◌, none, some, List, [],
  ◌∷◌, ◌++◌, arith, str_eq, eq_iff, eq_refl, Bool-cases, Option-cases, length, is_empty, contains,
}
use ragent.Ingest.Text.{text_eq, Text, codes, drop, is_prefix}
use ragent.Api.OpenaiRequests.{
  ok, http_error, strategies, model_prefix, dashed_prefix, strategy_named, strategy_for,
}

text_eq-eq : (s t : Text) → text_eq s t ≡ true → s ≡ t
text_eq-eq [] [] h = refl
text_eq-eq [] (c ∷ t) h = cc
text_eq-eq (c ∷ s) [] h = cc
text_eq-eq (c ∷ s) (d ∷ t) h =
    let same : c ≡ d = ground (arith) in
    let rest : text_eq s t ≡ true = ground (arith) in cc (same, text_eq-eq s t rest)

prefix_split : (s t : Text) → is_prefix s t ≡ true → t ≡ s ++ drop (length s) t
prefix_split [] t h = refl
prefix_split (c ∷ s) [] h = cc
prefix_split (c ∷ s) (d ∷ t) h =
    let same : c ≡ d = ground (arith) in
    let rest : is_prefix s t ≡ true = ground (arith) in
    let below = prefix_split s t rest in ap (λ x. x ∷ t) (sym same) ∙ ap (λ u. c ∷ u) below

strategy_named_lem :
    (names : List String) (suffix : Text) (s : String)
    → strategy_named names suffix ≡ some s
    → (contains names s ≡ true) × (codes s ≡ suffix)
strategy_named_lem [] suffix s h = absurd (never h)
  where
    never : none ≡ some s → ⊥
    never e = cc
strategy_named_lem (n ∷ rest) suffix s h = elim (Bool-cases (text_eq (codes n) suffix)) [
  | inl here ↦
      let e : n ≡ s = cc (rw here at h) in
      (
        rw (ap (λ x. str_eq x s) e ∙ eq_refl s) refl,
        ap codes (sym e) ∙ text_eq-eq (codes n) suffix here,
      )
  | inr other ↦
      let (among, same) = strategy_named_lem rest suffix s (rw other at h) in (ground (arith), same)
]

module _ (default : String) (others : List String) where
  abbrev IsOwn : String → Type 0
  IsOwn s = strategy_for (default ∷ others) (dashed_prefix ++ codes s) ≡ ok s

  strategy_for-IsOwn : (s : String) → contains strategies s ≡ true → IsOwn s
  unfolding strategy_for
  strategy_for-IsOwn s among = elim (Bool-cases (str_eq "fixed" s)) [
    | inl e ↦ subst IsOwn ((eq_iff "fixed" s).0 e) refl
    | inr a ↦ elim (Bool-cases (str_eq "recursive" s)) [
      | inl e ↦ subst IsOwn ((eq_iff "recursive" s).0 e) refl
      | inr b ↦ elim (Bool-cases (str_eq "layout" s)) [
        | inl e ↦ subst IsOwn ((eq_iff "layout" s).0 e) refl
        | inr c ↦ elim (Bool-cases (str_eq "semantic" s)) [
          | inl e ↦ subst IsOwn ((eq_iff "semantic" s).0 e) refl
          | inr d ↦ absurd (none_left (rw (a, b, c, d) at among))
        ]
      ]
    ]
  ]
    where
      none_left : false ≡ true → ⊥
      none_left e = cc

  -- What a model name is served as.
  abbrev pub IsServed : Text → Type 0
  IsServed model =
      (strategy_for (default ∷ others) model ≡ http_error 404)
      ⊎ ((s : String) × (strategy_for (default ∷ others) model ≡ ok s)
          × ((s ≡ default) × ((model ≡ model_prefix) ⊎ (model ≡ []))
              ⊎ (contains strategies s ≡ true) × (model ≡ dashed_prefix ++ codes s)))

  dashed_name :
      (model : Text)
      → (text_eq model model_prefix || is_empty model) ≡ false
      → is_prefix dashed_prefix model ≡ true
      → IsServed model
  unfolding strategy_for
  dashed_name model other dashed = elim (Option-cases (strategy_named strategies (drop 7 model))) [
    | inl unknown ↦ inl (rw (other, dashed, unknown, strategy_for) refl)
    | inr (s, e) ↦
        let (among, same) = strategy_named_lem strategies (drop 7 model) s e in
        inr (
          s,
          rw (other, dashed, e, strategy_for) refl,
          inr (
            among,
            prefix_split dashed_prefix model dashed ∙ ap (λ u. dashed_prefix ++ u) (sym same),
          ),
        )
  ]

  every_name : (model : Text) → IsServed model
  unfolding strategy_for
  every_name [] = inr (default, refl, inl (refl, inr refl))
  every_name (c ∷ t) = elim (Bool-cases (text_eq (c ∷ t) model_prefix)) [
    | inl bare ↦ inr (default, rw bare refl, inl (refl, inl (text_eq-eq (c ∷ t) model_prefix bare)))
    | inr other ↦ elim (Bool-cases (is_prefix dashed_prefix (c ∷ t))) [
      | inl dashed ↦ dashed_name (c ∷ t) (rw other refl) dashed
      | inr none_at ↦ inl (rw (other, none_at) refl)
    ]
  ]

-- The name of a model selects the chunking strategy. With a configured default, each strategy's own
-- name selects it, and the bare or empty name the default. A name that is served at all is one of
-- these, and every other name is a 404.
pub strategy_for_lem :
    (default : String) (others : List String)
    → ((s : String)
        → contains strategies s ≡ true
        → strategy_for (default ∷ others) (dashed_prefix ++ codes s) ≡ ok s)
      × (strategy_for (default ∷ others) model_prefix ≡ ok default)
      × (strategy_for (default ∷ others) [] ≡ ok default)
      × ((model : Text) → IsServed default others model)
unfolding strategy_for
strategy_for_lem default others =
    (strategy_for-IsOwn default others, refl, refl, every_name default others)
