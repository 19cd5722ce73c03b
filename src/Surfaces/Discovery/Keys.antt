-- ===== src/Surfaces/Discovery/Keys.antt =====
-- The comparison of trusted providers, key by key (agentDiscovery.ts).
use tosdk.Prelude.{
  ℕ, ℤ, pos, sub_ℕ, ◌-ℤ◌, ◌≡◌, refl, sym, ap, ◌∙◌, arith, Bool, true, false, ◌||◌, not, Option,
  none, some, ◌==◌, if◌then◌else◌,
}
use tosdk.Strings.{Text}
use tosdk.Sort.{is_positive, is_below, IsComparator}
use tosdk.Sort.Orders.{lexical, lexical-IsComparator, descending-IsComparator}
use tosdk.Surfaces.Discovery.Ranking.{
  AgentProviderExecutionPolicy, TrustedDiscoveredAgentProvider, provider_mode_score,
  provider_advertised_fee, compare_fees, compare_providers,
}

fee-turned :
    (l r : Option ℕ) → is_positive (compare_fees r l (pos 0)) ≡ is_below (compare_fees l r (pos 0))
unfolding compare_fees
fee-turned none none = refl
fee-turned none (some r) = refl
fee-turned (some l) none = refl
fee-turned (some l) (some r) = ground arith

fee-chained :
    (l m r : Option ℕ)
    → is_positive (compare_fees l m (pos 0)) ≡ false
    → is_positive (compare_fees m r (pos 0)) ≡ false
    → is_positive (compare_fees l r (pos 0)) ≡ false
unfolding compare_fees
fee-chained none none none p q = refl
fee-chained none none (some r) p q = cc
fee-chained none (some m) r p q = cc
fee-chained (some l) none none p q = refl
fee-chained (some l) none (some r) p q = cc
fee-chained (some l) (some m) none p q = refl
fee-chained (some l) (some m) (some r) p q = ground arith

fee-IsComparator :
    {A : Type 0} (fee : A → Option ℕ) → IsComparator (λ a b. compare_fees (fee a) (fee b) (pos 0))
fee-IsComparator fee = record {
  turned = λ a b. fee-turned (fee a) (fee b);
  chained = λ a b c. fee-chained (fee a) (fee b) (fee c);
}

IsComparator-eq :
    {A : Type 0} (c d : A → A → ℤ) → ((a b : A) → c a b ≡ d a b) → IsComparator d → IsComparator c
IsComparator-eq c d e w = record {
  turned = λ x y. ap is_positive (e y x) ∙ w.turned x y ∙ sym (ap is_below (e x y));
  chained = λ x y z p q.
      ap is_positive (e x z)
      ∙ w.chained x y z (sym (ap is_positive (e x y)) ∙ p) (sym (ap is_positive (e y z)) ∙ q);
}

-- The last keys of the order: the fee, where it counts, and the record.
abbrev pub by_fee_and_record :
    Bool → (Text → Text → ℤ) → TrustedDiscoveredAgentProvider → TrustedDiscoveredAgentProvider → ℤ
by_fee_and_record prefer locale l r =
    let fees =
      compare_fees (provider_advertised_fee l.provider) (provider_advertised_fee r.provider)
        (pos 0) in
    let records = locale l.provider.search.node_record r.provider.search.node_record in
    if prefer then if is_positive fees || is_below fees then fees else records else records

abbrev pub by_keys :
    (Text → Text → ℤ)
    → AgentProviderExecutionPolicy
    → TrustedDiscoveredAgentProvider
    → TrustedDiscoveredAgentProvider
    → ℤ
by_keys locale policy =
    lexical
      (λ l r.
        pos (provider_mode_score r.provider policy) -ℤ pos (provider_mode_score l.provider policy))
      (lexical (λ l r. r.trust_score -ℤ l.trust_score)
        (by_fee_and_record policy.prefer_lower_advertised_fee locale))

fees-eq :
    (l r : Option ℕ) (rest : ℤ)
    → compare_fees l r rest ≡ (
        if is_positive (compare_fees l r (pos 0)) || is_below (compare_fees l r (pos 0))
        then compare_fees l r (pos 0)
        else rest)
unfolding compare_fees
fees-eq none none rest = refl
fees-eq none (some r) rest = refl
fees-eq (some l) none rest = refl
fees-eq (some l) (some r) rest = ground arith

same_keys :
    (l r : ℕ) (score fees fees_then records : ℤ) (prefer : Bool)
    → fees_then ≡ (if is_positive fees || is_below fees then fees else records)
    → (if not (l == r)
        then sub_ℕ r l
        else if is_positive score || is_below score
        then score
        else if prefer
        then fees_then
        else records)
      ≡ (if is_positive (pos r -ℤ pos l) || is_below (pos r -ℤ pos l)
          then pos r -ℤ pos l
          else if is_positive score || is_below score
          then score
          else if prefer
          then if is_positive fees || is_below fees then fees else records
          else records)
same_keys l r score fees fees_then records prefer e = ground (arith, e)

pub compare_providers-eq :
    (locale : Text → Text → ℤ) (policy : AgentProviderExecutionPolicy)
    (l r : TrustedDiscoveredAgentProvider)
    → compare_providers locale policy l r ≡ by_keys locale policy l r
unfolding compare_providers
compare_providers-eq locale policy l r =
    let records = locale l.provider.search.node_record r.provider.search.node_record in
    let left = provider_advertised_fee l.provider in
    let right = provider_advertised_fee r.provider in
    same_keys (provider_mode_score l.provider policy) (provider_mode_score r.provider policy)
      (r.trust_score -ℤ l.trust_score) (compare_fees left right (pos 0))
      (compare_fees left right records) records policy.prefer_lower_advertised_fee
      (fees-eq left right records)

module _ (locale : Text → Text → ℤ) (w : IsComparator locale)
    (policy : AgentProviderExecutionPolicy) where
  record_IsComparator :
      IsComparator {A = TrustedDiscoveredAgentProvider}
        (λ l r. locale l.provider.search.node_record r.provider.search.node_record)
  record_IsComparator = record {
    turned = λ a b. w.turned a.provider.search.node_record b.provider.search.node_record;
    chained = λ a b c.
        w.chained a.provider.search.node_record b.provider.search.node_record
          c.provider.search.node_record;
  }

  last-IsComparator : (prefer : Bool) → IsComparator (by_fee_and_record prefer locale)
  last-IsComparator true =
      lexical-IsComparator _ _ (fee-IsComparator (λ p. provider_advertised_fee p.provider))
        record_IsComparator
  last-IsComparator false = record_IsComparator

  pub compare_providers-IsComparator : IsComparator (compare_providers locale policy)
  compare_providers-IsComparator = IsComparator-eq _ _ (compare_providers-eq locale policy) (
      lexical-IsComparator _ _
        (descending-IsComparator (λ p. pos (provider_mode_score p.provider policy)))
        (lexical-IsComparator _ _ (descending-IsComparator (λ p. p.trust_score))
          (last-IsComparator policy.prefer_lower_advertised_fee)))
