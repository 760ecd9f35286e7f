-- ===== src/Account/Members/Deleting.antt =====
-- What deleting accounts leaves in the pool.
use Prim.Native.Nat.{◌<◌}
use native.Mathlib.Nat.{mod-lt}
use model2api.Common.{
  ℕ, zero, suc, ◌+◌, String, ◌≡◌, refl, true, false, not, ◌&&◌, none, some, List, [], ◌∷◌, ◌==◌,
  if◌then◌else◌, elem, filterb, length, map, is_some, arith, eq_iff,
}
use model2api.Common.Maps.{
  Map, get, remove, contains_key, retain, get-remove, length-remove, get-retain,
}
use model2api.Json.{Host}
use model2api.Account.State.{Pool, Service, save_accounts_locked}
use model2api.Account.Invariant.{IsValid}
use model2api.Account.Invariant.Store.{drop_account-IsValid, IsValid-accounts}
use model2api.Account.Resolve.{resolve_locked}
use model2api.Account.Updates.{drop_account}
use model2api.Account.Members.{
  remove_each, keeps_alias, delete_resolved, clamp_index, finish_delete, delete_targets,
  delete_accounts,
}

-- The pool without the accounts and the slots of some tokens.
pub record Without (gone : List String) (p q : Pool) : Type 0 where
  pub valid : IsValid q
  pub members :
      (u : String) → contains_key u q.accounts ≡ (contains_key u p.accounts && not (elem u gone))
  pub kept : (u : String) → elem u gone ≡ false → get u q.accounts ≡ get u p.accounts
  pub slots : (u : String) → elem u gone ≡ true → get u q.image_inflight ≡ none
  pub other_slots :
      (u : String) → elem u gone ≡ false → get u q.image_inflight ≡ get u p.image_inflight

remove_each-Without :
    (ts : List String) (n : ℕ) (p : Pool)
    → IsValid p
    → let r = remove_each ts (n, p) in
      Without ts p r.1
      × (r.0 + length r.1.accounts ≡ n + length p.accounts)
      × (r.1.token_aliases ≡ p.token_aliases)
      × (r.1.index ≡ p.index)
      × (r.1.cumulative_total ≡ p.cumulative_total)
unfolding remove_each
remove_each-Without [] n p v = (
  record {
    valid = v;
    members = λ u. ground arith;
    kept = λ u h. refl;
    slots = λ u h. absurd (cc);
    other_slots = λ u h. refl;
  },
  refl,
  refl,
  refl,
  refl,
)
remove_each-Without (t ∷ ts) n p v =
    let q = record p {
      accounts = remove t p.accounts;
      image_inflight = remove t p.image_inflight;
    } in
    let vq = IsValid-accounts (drop_account t p) q refl (drop_account-IsValid t p v) in
    let (rest, count, same, index, total) =
      remove_each-Without ts (if is_some (get t p.accounts) then suc n else n) q vq in
    (
      record {
        valid = rest.valid;
        members = λ u. ground (arith, rest.members u, get-remove t u p.accounts);
        kept = λ u h. ground (arith, rest.kept u, get-remove t u p.accounts);
        slots = λ u h.
            ground (arith, rest.slots u, rest.other_slots u, get-remove t u p.image_inflight);
        other_slots = λ u h. ground (arith, rest.other_slots u, get-remove t u p.image_inflight);
      },
      ground (arith, count, length-remove t p.accounts v.distinct),
      same,
      index,
      total,
    )

-- The tokens that a deletion is about: what the given ones resolve to.
abbrev pub targets : List String → Pool → List String
targets tokens p = map (resolve_locked p) (filterb (λ t. not (t == "")) tokens)

-- What a deletion leaves, and what it reports.
pub record Deleted (gone : List String) (p : Pool) (q : Pool) (removed : ℕ) : Type 0 where
  pub without : Without gone p q
  pub counted : removed + length q.accounts ≡ length p.accounts
  pub aliases :
      (old new : String)
      → get old q.token_aliases ≡ some new
      → (elem old gone ≡ false) × (elem new gone ≡ false)
  pub aliases_kept :
      (old new : String)
      → get old p.token_aliases ≡ some new
      → elem old gone ≡ false
      → elem new gone ≡ false
      → get old q.token_aliases ≡ some new
  pub same_total : q.cumulative_total ≡ p.cumulative_total
  pub same_index : removed ≡ 0 → q.index ≡ p.index
  pub in_range : 0 < removed → 0 < length q.accounts → q.index < length q.accounts

kept_alias :
    (gone : List String) (m : Map String) (old new : String)
    → get old (retain (keeps_alias gone) m) ≡ some new
    → (elem old gone ≡ false) × (elem new gone ≡ false)
kept_alias gone m old new e =
    let kept = get-retain (keeps_alias gone) old m new e in (ground arith, ground arith)

same_tables :
    {gone : List String} {p q : Pool} (r : Pool)
    → r.accounts ≡ q.accounts
    → r.image_inflight ≡ q.image_inflight
    → Without gone p q
    → Without gone p r
same_tables {gone} {p} {q} r a i w = record {
  valid = IsValid-accounts q r a w.valid;
  members = λ u. rw a (w.members u);
  kept = λ u h. rw a (w.kept u h);
  slots = λ u h. rw i (w.slots u h);
  other_slots = λ u h. rw i (w.other_slots u h);
}

-- Aliases that name none of the tokens are kept.
retained_alias :
    (gone : List String) (m : Map String) (old new : String)
    → get old m ≡ some new
    → elem old gone ≡ false
    → elem new gone ≡ false
    → get old (retain (keeps_alias gone) m) ≡ some new
unfolding retain get
retained_alias gone [] old new e a b = absurd cc
retained_alias gone ((i, x) ∷ m) old new e a b =
    ground (arith, eq_iff i old, retained_alias gone m old new, e, a, b)

-- The aliases after a deletion: those of the pool that name none of the tokens.
record Aliased (gone : List String) (m n : Map String) : Type 0 where
  none_gone :
      (old new : String) → get old n ≡ some new → (elem old gone ≡ false) × (elem new gone ≡ false)
  others :
      (old new : String)
      → get old m ≡ some new
      → elem old gone ≡ false
      → elem new gone ≡ false
      → get old n ≡ some new

finish_delete-Deleted :
    (h : Host) (gone : List String) (s : Service) (n : ℕ) (q : Pool)
    → Without gone s.pool q
    → n + length q.accounts ≡ length s.pool.accounts
    → Aliased gone s.pool.token_aliases q.token_aliases
    → q.index ≡ s.pool.index
    → q.cumulative_total ≡ s.pool.cumulative_total
    → let r = finish_delete h s (n, q) in Deleted gone s.pool r.0.pool r.1
unfolding finish_delete save_accounts_locked
finish_delete-Deleted h gone s zero q w count alias index total = record {
  without = w;
  counted = count;
  aliases = alias.none_gone;
  aliases_kept = alias.others;
  same_total = total;
  same_index = λ u. index;
  in_range = λ a. absurd (omega arith);
}
finish_delete-Deleted h gone s (suc n) q w count alias index total = record {
  without = same_tables (clamp_index q) refl refl w;
  counted = count;
  aliases = alias.none_gone;
  aliases_kept = alias.others;
  same_total = total;
  same_index = λ u. absurd (omega (arith, u));
  in_range = λ a b. clamped b;
}
  where
    clamped : 0 < length q.accounts → (clamp_index q).index < length q.accounts
    clamped b = ground (arith, mod-lt q.index b)

delete_resolved-Deleted :
    (h : Host) (gone : List String) (s : Service)
    → IsValid s.pool
    → let r = finish_delete h s (delete_resolved gone s.pool) in Deleted gone s.pool r.0.pool r.1
unfolding delete_resolved
delete_resolved-Deleted h gone s v =
    let (without, count, same, index, total) = remove_each-Without gone 0 s.pool v in
    let r = remove_each gone (0, s.pool) in
    let q = record (r.1) { token_aliases = retain (keeps_alias gone) r.1.token_aliases } in
    finish_delete-Deleted h gone s r.0 q (same_tables q refl refl without) (omega (arith, count))
      (record {
        none_gone = kept_alias gone r.1.token_aliases;
        others = rw (same) (retained_alias gone s.pool.token_aliases);
      })
      index total

delete_targets-Deleted :
    (h : Host) (tokens : List String) (s : Service)
    → IsValid s.pool
    → let r = delete_targets h tokens s in
      Deleted (map (resolve_locked s.pool) tokens) s.pool r.0.pool r.1
unfolding delete_targets
delete_targets-Deleted h [] s v = record {
  without = record {
    valid = v;
    members = λ u. ground arith;
    kept = λ u h. refl;
    slots = λ u h. absurd (cc);
    other_slots = λ u h. refl;
  };
  counted = omega arith;
  aliases = λ old new e. (refl, refl);
  aliases_kept = λ old new e a b. e;
  same_total = refl;
  same_index = λ u. refl;
  in_range = λ a. absurd (omega arith);
}
delete_targets-Deleted h (t ∷ ts) s v =
    delete_resolved-Deleted h (map (resolve_locked s.pool) (t ∷ ts)) s v

-- Deleting tokens from a well-formed pool removes exactly the accounts that they resolve to, with
-- their slots and with exactly the aliases from or to them. It keeps the accounts, the slots and the
-- aliases of all other tokens as they are, and the cumulative total, leaves the pool well formed, and
-- reports how many accounts are gone. The round-robin index stays where none is gone, and is in range
-- again whenever an account was removed and one is left.
pub delete_accounts-Deleted :
    (h : Host) (tokens : List String) (s : Service)
    → IsValid s.pool
    → let r = delete_accounts h tokens s in Deleted (targets tokens s.pool) s.pool r.0.pool r.1
unfolding delete_accounts
delete_accounts-Deleted h tokens s v =
    delete_targets-Deleted h (filterb (λ t. not (t == "")) tokens) s v
