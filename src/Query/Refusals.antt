-- ===== src/Query/Refusals.antt =====
-- The reasons for which a query is refused.
use incite.Base.{
  ◌%◌, ◌≤◌, ◌<◌, ◌≡◌, ◌≢◌, refl, ◌⊎◌, inl, inr, Bool, true, false, not, [], arith, ltb, trim_space,
  subst, ap, List, ◌∷◌,
}
use incite.Base.Int.{ℤ, pos_part}
use incite.Clock.{
  Duration, millisecond, time_sub, has_sub_millisecond, has_sub_millisecond_d, nanosecond,
}
use incite.Errors.{
  Error, closed, message, Message, text_blank, start_sub_millisecond, end_sub_millisecond,
  end_not_after_start, no_groups, exceeded_max_limit, chunk_sub_millisecond,
  split_until_sub_millisecond, split_until_with_preview, split_until_without_max_limit, Result, ok,
  err, ◌>>=◌, ◌>>◌,
}
use incite.Stream.{QuerySpec, Stream}
use incite.Query.{check_chunk, check_limit, check_split_until, query, max_limit, is_empty, refuse}
use incite.Query.Checks.{check_limit_lem}

-- Why an error is returned.
abbrev pub Explains : Error → Bool → QuerySpec → Type 0
Explains (message text_blank) is_closed q = trim_space q.text ≡ []
Explains (message start_sub_millisecond) is_closed q = q.start % millisecond ≢ 0
Explains (message end_sub_millisecond) is_closed q = q.end % millisecond ≢ 0
Explains (message end_not_after_start) is_closed q = q.end ≤ q.start
Explains (message no_groups) is_closed q = q.groups ≡ []
Explains (message exceeded_max_limit) is_closed q = max_limit < pos_part q.limit
Explains (message chunk_sub_millisecond) is_closed q = pos_part q.chunk % millisecond ≢ 0
Explains (message split_until_sub_millisecond) is_closed q =
    pos_part q.split_until % millisecond ≢ 0
Explains (message split_until_with_preview) is_closed q =
    (0 < pos_part q.split_until) × (q.preview ≡ true)
Explains (message split_until_without_max_limit) is_closed q =
    (0 < pos_part q.split_until) × (pos_part q.limit < max_limit)
Explains closed is_closed q = is_closed ≡ true
Explains _ is_closed q = ⊥

refuse-err :
    {A : Type 0} (b : Bool) (e e' : Error) (r : Result A)
    → (refuse b e >> r) ≡ err e'
    → ((b ≡ true) × (e ≡ e')) ⊎ (r ≡ err e')
refuse-err true e e' r h = inl (refl, ground arith)
refuse-err false e e' r h = inr h

>>=-err :
    {A B : Type 0} (r : Result A) (f : A → Result B) (e : Error)
    → (r >>= f) ≡ err e
    → (r ≡ err e) ⊎ ((a : A) × (r ≡ ok a) × (f a ≡ err e))
>>=-err (ok a) f e h = inr (a, refl, h)
>>=-err (err e') f e h = inl (ground arith)

module _ (is_closed : Bool) (q : QuerySpec) where
  -- A refusal is explained if its error is.
  guard_explained :
      {A : Type 0} (b : Bool) (e e' : Error) (r : Result A)
      → (b ≡ true → Explains e is_closed q)
      → (r ≡ err e' → Explains e' is_closed q)
      → (refuse b e >> r) ≡ err e'
      → Explains e' is_closed q
  guard_explained b e e' r reason rest h = elim (refuse-err b e e' r h) [
    | inl (t, p) ↦ subst (λ x. Explains x is_closed q) p (reason t)
    | inr h' ↦ rest h'
  ]

  bind_explained :
      {A B : Type 0} (r : Result A) (f : A → Result B) (e : Error)
      → (r ≡ err e → Explains e is_closed q)
      → ((a : A) → r ≡ ok a → f a ≡ err e → Explains e is_closed q)
      → (r >>= f) ≡ err e
      → Explains e is_closed q
  bind_explained r f e reason rest h = elim (>>=-err r f e h) [
    | inl p ↦ reason p
    | inr (a, p, h') ↦ rest a p h'
  ]

  check_chunk-Explains :
      (d : Duration) (e : Error) → check_chunk d q.chunk ≡ err e → Explains e is_closed q
  unfolding check_chunk has_sub_millisecond_d
  check_chunk-Explains d e h = ground arith

  check_limit-Explains : (e : Error) → check_limit q.limit ≡ err e → Explains e is_closed q
  unfolding check_limit
  check_limit-Explains e h = ground arith

  check_limit-small :
      (l : ℤ) → check_limit q.limit ≡ ok l → pos_part l < max_limit → pos_part q.limit < max_limit
  unfolding check_limit
  check_limit-small l h p = ground arith

  check_split_until-Explains :
      (c : Duration) (l : ℤ) (e : Error)
      → check_limit q.limit ≡ ok l
      → check_split_until q.split_until c q.preview l ≡ err e
      → Explains e is_closed q
  unfolding check_split_until has_sub_millisecond_d
  check_split_until-Explains c l e p h =
      ground (arith, check_limit_lem q.limit l p, check_limit-small l p)

  empty_lem {ℓ} : {A : Type ℓ} (xs : List A) → is_empty xs ≡ true → xs ≡ []
  empty_lem [] h = refl
  empty_lem (x ∷ xs) h = cc

  -- Query refuses for one of the reasons that its messages name, and for no other: whenever it
  -- returns an error, the condition that the error speaks of holds of the query.
  pub query-Explains : (e : Error) → query is_closed q ≡ err e → Explains e is_closed q
  unfolding query has_sub_millisecond nanosecond
  query-Explains e =
      guard_explained (is_empty (trim_space q.text)) _ e _ (empty_lem (trim_space q.text)) (
        guard_explained (has_sub_millisecond q.start) _ e _ (λ t. ground arith)
          (guard_explained (has_sub_millisecond q.end) _ e _ (λ t. ground arith)
            (guard_explained (not (ltb q.start q.end)) _ e _ (λ t. ground arith)
              (guard_explained (is_empty q.groups) _ e _ (empty_lem q.groups) (
                bind_explained (check_chunk (time_sub q.end q.start) q.chunk) _ e
                  (check_chunk-Explains (time_sub q.end q.start) e)
                  λ chunk _.
                    bind_explained (check_limit q.limit) _ e (check_limit-Explains e) λ limit p.
                      bind_explained (check_split_until q.split_until chunk q.preview limit) _ e
                        (check_split_until-Explains chunk limit e p)
                        λ split_until _.
                          guard_explained is_closed closed e _ (λ t. t) (λ h. cc))))))

-- The conditions that QuerySpec asks of a query.
pub record IsValid (q : QuerySpec) : Type 0 where
  pub text_given : is_empty (trim_space q.text) ≡ false
  pub groups_given : is_empty q.groups ≡ false
  pub start_aligned : q.start % millisecond ≡ 0
  pub end_aligned : q.end % millisecond ≡ 0
  pub ordered : q.start < q.end
  pub chunk_aligned : pos_part q.chunk % millisecond ≡ 0
  pub limit_bounded : pos_part q.limit ≤ max_limit
  pub split_aligned : pos_part q.split_until % millisecond ≡ 0
  pub split_allowed :
      (pos_part q.split_until ≡ 0) ⊎ ((q.preview ≡ false) × (pos_part q.limit ≡ max_limit))

IsValid-refutes : (q : QuerySpec) (e : Error) → IsValid q → Explains e false q → ⊥
IsValid-refutes q (message m) v x = IsValid-refutes_message m x
  where
    IsValid-refutes_message : (m : Message) → Explains (message m) false q → ⊥
    IsValid-refutes_message text_blank x = ground (arith, v.text_given, ap is_empty x)
    IsValid-refutes_message no_groups x = ground (arith, v.groups_given, ap is_empty x)
    IsValid-refutes_message _ x = ground (arith, v)
IsValid-refutes q closed v x = cc
IsValid-refutes q _ v x = x

Result-cases : {A : Type 0} (r : Result A) → ((a : A) × (r ≡ ok a)) ⊎ ((e : Error) × (r ≡ err e))
Result-cases (ok a) = inl (a, refl)
Result-cases (err e) = inr (e, refl)

-- An open manager accepts every query that meets the conditions that QuerySpec asks for.
pub query-accepts : (q : QuerySpec) → IsValid q → (s : Stream) × (query false q ≡ ok s)
query-accepts q v = elim (Result-cases (query false q)) [
  | inl accepted ↦ accepted
  | inr (e, refused) ↦ absurd (IsValid-refutes q e v (query-Explains false q e refused))
]
