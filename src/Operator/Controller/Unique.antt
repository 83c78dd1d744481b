-- ===== src/Operator/Controller/Unique.antt =====
-- The communities of all overlays, across reconciliations of any of them.
use pontifex.Base.{
  ℕ, ◌^◌, ◌<◌, String, true, false, ◌&&◌, List, [], ◌∷◌, ◌≡◌, ◌≢◌, sym, ◌∙◌, ◌⊎◌, inl, inr, ◌==◌,
  any, arith, comparable_string, Bool-cases,
}
use pontifex.Effects.{ok}
use pontifex.Effects.Keeps.{KeepsQuery, KeepsCall}
use pontifex.Api.{NetworkOverlay}
use pontifex.Operator.Cluster.{Client}
use pontifex.Operator.Community.{community_of}
use pontifex.Operator.Community.Fresh.{taken}
use pontifex.Operator.Kept.{CallsKeep}
use pontifex.Operator.Workloads.{Deployments}
use pontifex.Operator.Controller.{Services}

-- A cluster that stores the community of each overlay under its name, a blank one if there is no
-- such overlay. A listing reports the overlays that have one. A patch of an object may end in its
-- removal; a patch of its status writes the community only if it differs from the old object's, and
-- touches no other overlay. No other call changes a community.
pub record Communities {S W : Type 0} (client : Client S W) (services : Services W)
    (deployments : Deployments W) (communities : W → String → String) : Type 0 where
  pub kept : CallsKeep communities client deployments
  pub gets : (name : String) → KeepsQuery communities (services.get_overlay name)
  pub keys : (ov : NetworkOverlay) → KeepsQuery communities (services.ensure_key_pair ov)
  pub rbac : (namespace : String) → KeepsCall communities (services.ensure_rbac namespace)
  pub lists :
      (w : W) (all : List NetworkOverlay) (n : String)
      → (client.list_overlays w).0 ≡ ok all
      → communities w n ≢ ""
      → any (λ o. o.name == n && o.status.community == communities w n) all ≡ true
  pub patches :
      (old new : NetworkOverlay) (w : W) (n : String)
      → (communities (services.patch old new w).1 n ≡ communities w n)
        ⊎ (communities (services.patch old new w).1 n ≡ "")
  pub same_status :
      (old new : NetworkOverlay) (w : W)
      → old.status.community ≡ new.status.community
      → communities (services.patch_status old new w).1 ≡ communities w
  pub patches_status :
      (old new : NetworkOverlay) (w : W) (n : String)
      → (communities (services.patch_status old new w).1 n ≡ communities w n)
        ⊎ ((n ≡ old.name)
            × (communities (services.patch_status old new w).1 n ≡ new.status.community))

-- No two overlays have the same community, and each is one of the pool.
pub record Sound (asn : ℕ) (c : String → String) : Type 0 where
  pub unique : (m n : String) → c m ≢ "" → c m ≡ c n → m ≡ n
  pub pooled : (n : String) → c n ≢ "" → (k : ℕ) × (c n ≡ community_of asn k) × (k < 2 ^ 16)

-- Some overlays may have lost theirs.
pub fewer-Sound :
    (asn : ℕ) (c d : String → String)
    → ((n : String) → (d n ≡ c n) ⊎ (d n ≡ ""))
    → Sound asn c
    → Sound asn d
fewer-Sound asn c d fewer h = record {
  unique = λ m n some' same. elim (fewer m) [
    | inr e ↦ absurd (some' e)
    | inl e ↦ elim (fewer n) [
      | inr e' ↦ absurd (some' (same ∙ e'))
      | inl e' ↦ h.unique m n (λ z. some' (e ∙ z)) (sym e ∙ same ∙ e')
    ]
  ];
  pooled = λ n some'. elim (fewer n) [
    | inr e ↦ absurd (some' e)
    | inl e ↦ let (k, is, lt) = h.pooled n (λ z. some' (e ∙ z)) in (k, e ∙ is, lt)
  ];
}

-- One overlay has got a community that no other one has.
pub placed-Sound :
    (asn k : ℕ) (name : String) (c d : String → String)
    → k < 2 ^ 16
    → ((n : String) → c n ≢ "" → (n == name) ≡ false → c n ≢ community_of asn k)
    → ((n : String) → (d n ≡ c n) ⊎ ((n ≡ name) × (d n ≡ community_of asn k)))
    → Sound asn c
    → Sound asn d
placed-Sound asn k name c d lt free placed h = record {
  unique = λ m n some' same. elim (placed m) [
    | inl e ↦ elim (placed n) [
      | inl e' ↦ h.unique m n (λ z. some' (e ∙ z)) (sym e ∙ same ∙ e')
      | inr (is, e') ↦ only m (λ z. some' (e ∙ z)) (sym e ∙ same ∙ e') ∙ sym is
    ]
    | inr (is, e) ↦ elim (placed n) [
      | inl e' ↦ is ∙ sym (only n (λ z. some' (same ∙ e' ∙ z)) (sym e' ∙ sym same ∙ e))
      | inr (is', e') ↦ is ∙ sym is'
    ]
  ];
  pooled = λ n some'. elim (placed n) [
    | inl e ↦ let (j, is, less) = h.pooled n (λ z. some' (e ∙ z)) in (j, e ∙ is, less)
    | inr (is, e) ↦ (k, e, lt)
  ];
}
  where
    only : (n : String) → c n ≢ "" → c n ≡ community_of asn k → n ≡ name
    only n some' e = elim (Bool-cases (n == name)) [
      | inl p ↦ ground (arith, p, comparable_string.equal_iff n name)
      | inr p ↦ absurd (free n some' p e)
    ]

-- If no other listed overlay has a community, one that is listed with a community has another one.
pub untaken :
    (current c n d : String) (all : List NetworkOverlay)
    → (n == current) ≡ false
    → taken current c all ≡ false
    → any (λ o. o.name == n && o.status.community == d) all ≡ true
    → d ≢ c
untaken current c n d [] other free listed = cc
untaken current c n d (o ∷ os) other free listed = ground (
  arith,
  untaken current c n d os,
  comparable_string.equal_iff o.name n,
  comparable_string.equal_iff o.name current,
  comparable_string.equal_iff n current,
  comparable_string.equal_iff o.status.community d,
  comparable_string.equal_iff o.status.community c,
)
