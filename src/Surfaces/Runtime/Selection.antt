-- ===== src/Surfaces/Runtime/Selection.antt =====
-- The ranking and the selection of surfaces against the diagnostics.
use tosdk.Prelude.{
  ℤ, pos, ◌≡◌, refl, sym, ap, ◌∙◌, inl, inr, ◌⊎◌, arith, Bool, true, false, ◌&&◌, List, Option,
  none, some, ◌==◌, length, map,
}
use tosdk.Prelude.Results.{ok}
use tosdk.Strings.{Text}
use tosdk.Arrays.{filter, Member, filter-same, map-same}
use tosdk.Sort.{is_positive, sort, IsComparator}
use tosdk.Sort.Orders.{lexical-IsComparator, descending-IsComparator}
use mathlib.Core.Path.{subst}
use tosdk.Sort.Laws.{sort-perm, sort-Ordered}
use tosdk.Sort.Keys.{InOrder, Descending, Descending_lem, Ordered-InOrder}
use tosdk.Sort.Choice.{choice_lem}
use mathlib.Core.List.{Perm}
use tosdk.Address.{Caches}
use tosdk.Surfaces.Types.{AgentSearchParams, AgentProviderTrustSummary}
use tosdk.Surfaces.Preferences.{AgentProviderSelectionPreferences, push_if}
use tosdk.Surfaces.Discovery.Failures.{summary_failures, trust_score}
use tosdk.Surfaces.Discovery.Ranking.{passes_trust}
use tosdk.Surfaces.Runtime.Types.{SearchResultSurface, TrustedSearchResultSurface}
use tosdk.Surfaces.Runtime.Trust.{
  is_trusted_search_surface, preference_failures, with_trust_score, compare_surfaces,
  rank_trusted_agent_surfaces, filter_preferred_agent_surfaces, select_preferred_agent_surface,
  surface_trust_failures, diagnose_surface, diagnose_preferred_agent_surfaces,
}
use tosdk.Surfaces.Runtime.Normalize.{BlockTag, RuntimeClient}
use tosdk.Surfaces.Runtime.Lookup.{
  search_discovered_agent_surfaces, search_trusted_agent_surfaces, resolve_preferred_agent_surface,
  search_preferred_agent_surface_diagnostics,
}

trusted-failures :
    (e : SearchResultSurface)
    → (length (surface_trust_failures e) == 0) ≡ is_trusted_search_surface e
unfolding surface_trust_failures is_trusted_search_surface passes_trust summary_failures push_if
trusted-failures e = ground (arith)

-- An entry with the local rank score of its trust summary, or 0.
abbrev pub scored : SearchResultSurface → TrustedSearchResultSurface
scored e = record {
  entry = e;
  trust_score = elim e.result.trust [
    | none ↦ pos 0
    | some trust ↦ elim trust.local_rank_score [ none ↦ pos 0 | some n ↦ n ]
  ];
}

score_lem :
    (trust : Option AgentProviderTrustSummary)
    → trust_score trust ≡ (elim trust [
      | none ↦ pos 0
      | some t ↦ elim t.local_rank_score [ none ↦ pos 0 | some n ↦ n ]
    ])
unfolding trust_score
score_lem none = refl
score_lem (some trust) = refl

scored_lem : (e : SearchResultSurface) → with_trust_score e ≡ scored e
unfolding with_trust_score
scored_lem e = ap (λ n. record { entry = e; trust_score = n }) (score_lem e.result.trust)

-- The order of surfaces: falling scores, and for equal ones by node record.
abbrev pub IsAhead :
    (Text → Text → ℤ) → TrustedSearchResultSurface → TrustedSearchResultSurface → Type 0
IsAhead locale a b =
    Descending a.trust_score b.trust_score
      (is_positive (locale a.entry.result.node_record b.entry.result.node_record) ≡ false)

abbrev surface_suits : AgentProviderSelectionPreferences → TrustedSearchResultSurface → Bool
surface_suits prefs t = length (preference_failures t.entry t.trust_score prefs) == 0

abbrev pub is_preferred_surface : AgentProviderSelectionPreferences → SearchResultSurface → Bool
is_preferred_surface prefs e = (diagnose_surface prefs e).preferred

preferred_surface_lem :
    (prefs : AgentProviderSelectionPreferences) (e : SearchResultSurface)
    → is_preferred_surface prefs e
      ≡ is_trusted_search_surface e && surface_suits prefs (with_trust_score e)
unfolding diagnose_surface with_trust_score
preferred_surface_lem prefs e =
    ap (λ b. b && (length (preference_failures e (trust_score e.result.trust) prefs) == 0))
      (trusted-failures e)

-- An entry of the list that the diagnostics call preferred, and that is ranked behind no other such
-- one.
pub record IsBestSurface (locale : Text → Text → ℤ) (prefs : AgentProviderSelectionPreferences)
    (entries : List SearchResultSurface) (t : TrustedSearchResultSurface) : Type 0 where
  pub found : SearchResultSurface
  pub scored : t ≡ with_trust_score found
  pub among : Member found entries
  pub preferred : is_preferred_surface prefs found ≡ true
  pub ahead :
      (q : SearchResultSurface)
      → Member q entries
      → is_preferred_surface prefs q ≡ true
      → is_positive (compare_surfaces locale t (with_trust_score q)) ≡ false

module _ (locale : Text → Text → ℤ) (w : IsComparator locale) where
  record_IsComparator :
      IsComparator {A = TrustedSearchResultSurface}
        (λ a b. locale a.entry.result.node_record b.entry.result.node_record)
  record_IsComparator = record {
    turned = λ a b. w.turned a.entry.result.node_record b.entry.result.node_record;
    chained = λ a b c.
        w.chained a.entry.result.node_record b.entry.result.node_record c.entry.result.node_record;
  }

  compare_surfaces-IsComparator : IsComparator (compare_surfaces locale)
  unfolding compare_surfaces
  compare_surfaces-IsComparator =
      lexical-IsComparator _ _ (descending-IsComparator (λ t. t.trust_score)) record_IsComparator

  compare_surfaces-IsAhead :
      (a b : TrustedSearchResultSurface)
      → is_positive (compare_surfaces locale a b) ≡ false
      → IsAhead locale a b
  unfolding compare_surfaces
  compare_surfaces-IsAhead a b h = Descending_lem a.trust_score b.trust_score _ _ (λ p. p) h

  -- With a consistent locale comparison: the ranking holds just the entries for which the diagnostics
  -- list no trust failure, each with the local rank score of its trust summary or 0, and has every one
  -- before those of a lower score, and of the same score before those of a record that it does not
  -- compare as behind.
  pub rank_surfaces_lem :
      (entries : List SearchResultSurface)
      → Perm
          (rank_trusted_agent_surfaces locale entries)
          (map scored (filter (λ e. length (surface_trust_failures e) == 0) entries))
        × InOrder (IsAhead locale) (rank_trusted_agent_surfaces locale entries)
  unfolding rank_trusted_agent_surfaces
  rank_surfaces_lem entries =
      let items = map with_trust_score (filter is_trusted_search_surface entries) in
      let same =
        map-same with_trust_score scored scored_lem (filter is_trusted_search_surface entries)
        ∙ ap (map scored) (
            filter-same is_trusted_search_surface (λ e. length (surface_trust_failures e) == 0)
              (λ e. sym (trusted-failures e)) entries) in
      (
        subst (Perm (sort (compare_surfaces locale) items)) same
            (sort-perm (compare_surfaces locale) items),
        Ordered-InOrder (compare_surfaces locale) (IsAhead locale) compare_surfaces-IsAhead _
            (sort-Ordered (compare_surfaces locale) compare_surfaces-IsComparator items),
      )

  select_lem :
      (prefs : AgentProviderSelectionPreferences) (entries : List SearchResultSurface)
      → ((t : TrustedSearchResultSurface) × (select_preferred_agent_surface
              (rank_trusted_agent_surfaces locale entries)
              prefs
            ≡ some t)
          × IsBestSurface locale prefs entries t)
        ⊎ ((select_preferred_agent_surface (rank_trusted_agent_surfaces locale entries) prefs
              ≡ none)
            × ((q : SearchResultSurface) → Member q entries → is_preferred_surface prefs q ≡ false))
  unfolding select_preferred_agent_surface filter_preferred_agent_surfaces
      rank_trusted_agent_surfaces
  select_lem prefs entries =
      elim (choice_lem is_trusted_search_surface with_trust_score (surface_suits prefs)
        (compare_surfaces locale) compare_surfaces-IsComparator entries) [
          | inl (t, e, b) ↦ inl (
            t,
            e,
            record {
              found = b.item;
              scored = b.viewed;
              among = b.among;
              preferred = preferred_surface_lem prefs b.item ∙ b.qualified;
              ahead = λ q m h. b.ahead q m (sym (preferred_surface_lem prefs q) ∙ h);
            },
          )
          | inr (e, n) ↦ inr (e, λ q m. preferred_surface_lem prefs q ∙ n q m)
        ]

-- With a consistent locale comparison, where the search reaches its end with some entries:
-- resolvePreferredAgentSurface and the search for diagnostics answer on the same entries and leave
-- the same state; the one answers with an entry that the other calls preferred and that is ranked
-- behind no other such one, or with none, and then the other calls none of the entries preferred.
pub resolve_surface_lem :
    {W : Type 0} (client : RuntimeClient W) (locale : Text → Text → ℤ)
    (parameters : AgentSearchParams) (block_tag : Option BlockTag)
    (prefs : AgentProviderSelectionPreferences) (s after : W × Caches)
    (entries : List SearchResultSurface)
    → IsComparator locale
    → search_discovered_agent_surfaces client parameters block_tag s ≡ (ok entries, after)
    → (search_preferred_agent_surface_diagnostics client parameters block_tag prefs s
        ≡ (ok (diagnose_preferred_agent_surfaces entries prefs), after))
      × (((t : TrustedSearchResultSurface) × (resolve_preferred_agent_surface client locale
                parameters block_tag prefs s
              ≡ (ok (some t), after))
            × IsBestSurface locale prefs entries t)
          ⊎ ((resolve_preferred_agent_surface client locale parameters block_tag prefs s
                ≡ (ok none, after))
              × ((q : SearchResultSurface)
                  → Member q entries
                  → is_preferred_surface prefs q ≡ false)))
unfolding search_preferred_agent_surface_diagnostics resolve_preferred_agent_surface
    search_trusted_agent_surfaces
resolve_surface_lem client locale parameters block_tag prefs s after entries w e = (
  rw e refl,
  elim (select_lem locale w prefs entries) [
    | inl (t, r, b) ↦ inl (t, rw (e, r) refl, b)
    | inr (r, n) ↦ inr (rw (e, r) refl, n)
  ],
)
