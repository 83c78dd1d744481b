-- ===== src/Config/Loaded.antt =====
-- What a loaded configuration has.
use pontifex.Base.{
  String, true, false, ◌≡◌, ◌⊎◌, inl, inr, refl, sym, ap, subst, ==-self, ◌∙◌, ◌==◌,
  comparable_string, comparable_number, Bool-cases,
}
use pontifex.Effects.{Result, ok}
use pontifex.Effects.Converge.{Result-cases, ok-inj, err-ne-ok}
use pontifex.Config.{OperatorConfig, or_default, apply_defaults, validated, load}

-- The field that was read, if it was not blank, and one that is not blank in any case.
abbrev pub Filled : String → String → Type 0
Filled given field = ((given == field ≡ true) ⊎ (given == "" ≡ true)) × (field == "" ≡ false)

or_default-Filled :
    (fallback given : String) → (fallback == "") ≡ false → Filled given (or_default fallback given)
or_default-Filled fallback given h = elim (Bool-cases (given == "")) [
  | inl p ↦ rw p (inr refl, h)
  | inr p ↦ rw p (inl (==-self given), p)
]

validated_ok : (c d : OperatorConfig) → validated c ≡ ok d → (c ≡ d) × (c.asn == 0 ≡ false)
unfolding validated
validated_ok c d h = elim (Bool-cases (c.asn == 0)) [
  | inl p ↦ absurd (err-ne-ok (rw (p, validated) at h))
  | inr p ↦ (ok-inj (rw (p, validated) at h), p)
]

-- An operator's configuration that loads has an ASN, the one of the file, and no blank text: each text
-- is the one of the file, or that one was blank.
pub load-Filled :
    (read : String → Result OperatorConfig) (path : String) (c : OperatorConfig)
    → load read path ≡ ok c
    → (given : OperatorConfig) × (read path ≡ ok given)
      × (c.asn ≡ given.asn)
      × (c.asn == 0 ≡ false)
      × Filled given.namespace c.namespace
      × Filled given.agent_image c.agent_image
      × Filled given.gateway_node_label c.gateway_node_label
      × Filled given.log_level c.log_level
unfolding load apply_defaults
load-Filled read path c h = elim (Result-cases (read path)) [
  | inr (x, e) ↦ absurd (err-ne-ok (rw (e, load) at h))
  | inl (given, e) ↦
      let (same, asn) = validated_ok (apply_defaults given) c (rw (e, load) at h) in
      (
        given,
        e,
        ap OperatorConfig.asn (sym same),
        ap (λ d. OperatorConfig.asn d == 0) (sym same) ∙ asn,
        subst (λ d. Filled given.namespace (OperatorConfig.namespace d)) same
            (or_default-Filled "pontifex-system" given.namespace refl),
        subst (λ d. Filled given.agent_image (OperatorConfig.agent_image d)) same
            (or_default-Filled "ghcr.io/tsamsiyu/pontifex-agent:latest" given.agent_image refl),
        subst (λ d. Filled given.gateway_node_label (OperatorConfig.gateway_node_label d)) same
            (or_default-Filled "pontifex.io/gateway-role" given.gateway_node_label refl),
        subst (λ d. Filled given.log_level (OperatorConfig.log_level d)) same
            (or_default-Filled "info" given.log_level refl),
      )
]
