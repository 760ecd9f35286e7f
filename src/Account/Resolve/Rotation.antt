-- ===== src/Account/Resolve/Rotation.antt =====
-- A token that was rotated keeps its holders: whatever resolved to the old token resolves to the new
-- one afterwards.
use model2api.Common.{
  ℕ, zero, suc, ◌+◌, ◌<◌, String, ◌≡◌, refl, sym, ◌∙◌, true, false, some, List, [], ◌∷◌, ◌==◌, inl,
  inr, Bool-cases, eq_iff, elem, length, trim, arith,
}
use model2api.Common.Maps.{get, contains_key}
use model2api.Account.State.{Pool}
use model2api.Account.Resolve.{follows, next_token, resolve_loop, resolve_locked}
use model2api.Account.Resolve.Ends.{resolve_loop-fuel, enough_fuel}

-- What a rotation from `old` to `new` does to the two tables that a look-up reads.
pub record Rotated (p q : Pool) (old new : String) : Type 0 where
  pub was_account : contains_key old p.accounts ≡ true
  pub removed : contains_key old q.accounts ≡ false
  pub added : contains_key new q.accounts ≡ true
  pub kept :
      (t : String)
      → (old == t) ≡ false
      → (new == t) ≡ false
      → contains_key t q.accounts ≡ contains_key t p.accounts
  pub aliased : get old q.token_aliases ≡ some new
  pub alias_kept : (t : String) → (old == t) ≡ false → get t q.token_aliases ≡ get t p.token_aliases
  pub nonempty : (old == "") ≡ false

module _ (p q : Pool) (old new : String) (r : Rotated p q old new) where
  at_new : (fuel : ℕ) (seen : List String) → resolve_loop fuel q new seen ≡ new
  unfolding resolve_loop follows
  at_new zero seen = refl
  at_new (suc fuel) seen = ground (arith, r.added)

  at_old :
      (fuel : ℕ) (seen : List String)
      → elem old seen ≡ false
      → resolve_loop (suc fuel) q old seen ≡ new
  unfolding resolve_loop follows next_token
  at_old fuel seen h = ground (arith, r.removed, r.aliased, r.nonempty, at_new fuel (old ∷ seen))

  same_follows :
      (t : String) (seen : List String)
      → (old == t) ≡ false
      → (new == t) ≡ false
      → follows q t seen ≡ follows p t seen
  unfolding follows
  same_follows t seen a b = rw (r.kept t a b, r.alias_kept t a)

  same_next : (t : String) → (old == t) ≡ false → next_token q t ≡ next_token p t
  unfolding next_token
  same_next t a = rw (r.alias_kept t a)

  follows_other : (t : String) (seen : List String) → follows p t seen ≡ true → (old == t) ≡ false
  unfolding follows
  follows_other t seen h = ground (arith, eq_iff old t, r.was_account)

  redirected :
      (fuel extra : ℕ) (t : String) (seen : List String)
      → fuel < extra
      → elem old seen ≡ false
      → resolve_loop fuel p t seen ≡ old
      → resolve_loop extra q t seen ≡ new
  unfolding resolve_loop
  redirected fuel zero t seen h unmarked e = absurd (omega arith)
  redirected zero (suc extra) t seen h unmarked e = rw e (at_old extra seen unmarked)
  redirected (suc fuel) (suc extra) t seen h unmarked e = elim (Bool-cases (follows p t seen)) [
    | inl on ↦
        let other = follows_other t seen on in
        elim (Bool-cases (new == t)) [
          | inl hit ↦ rw (← (eq_iff new t).0 hit) (unfold resolve_loop in at_new (suc extra) seen)
          | inr miss ↦
              rw (same_follows t seen other miss, on)
                (rw (same_next t other) (
                  redirected fuel extra (next_token p t) (t ∷ seen) (omega arith)
                    (ground (arith, eq_iff old t, eq_iff t old)) (rw on at e)))
        ]
    | inr ends ↦
        let here : t ≡ old = rw ends at e in
        rw here (unfold resolve_loop in at_old extra seen unmarked)
  ]

  -- Every text that resolved to the old token, aliases of aliases included, resolves to the new one.
  pub resolve_locked-Rotated : (a : String) → resolve_locked p a ≡ old → resolve_locked q a ≡ new
  unfolding resolve_locked
  resolve_locked-Rotated a e =
      sym (
        resolve_loop-fuel q (suc (length q.token_aliases))
          (suc (suc (length p.token_aliases) + suc (length q.token_aliases))) (trim a) []
          (enough_fuel q) (omega arith))
      ∙ redirected (suc (length p.token_aliases))
          (suc (suc (length p.token_aliases) + suc (length q.token_aliases))) (trim a) []
          (omega arith) refl e
