-- ===== src/Account/Matching/Candidates.antt =====
-- The candidate lists hold exactly the accounts that the request admits.
use model2api.Common.{
  String, ◌≡◌, ◌↔◌, true, false, not, ◌&&◌, Bool, some, List, [], ◌∷◌, ◌==◌, inl, inr,
  if◌then◌else◌, Bool-cases, eq_iff, elem, arith,
}
use model2api.Common.Maps.{Map, get, Entries, IsDistinct}
use model2api.Json.{str, Fields, Host, get_field, s}
use model2api.Account.State.{Pool}
use model2api.Account.Invariant.{IsAccount, IsValid}
use model2api.Account.Matching.{Request, matches, tokens_where, list_ready_candidate_tokens}

pub s-str :
    (h : Host) (m : Fields) (key t : String) → get_field key m ≡ some (str t) → s h m key ≡ t
unfolding s
s-str h m key t e = rw (e, s)

-- The account of a token is in the pool, passes the test and is not excluded.
pub record Serves (test : Fields → Bool) (excluded : List String) (m : Map Fields) (t : String)
    : Type 0 where
  pub item : Fields
  pub account : get t m ≡ some item
  pub passes : test item ≡ true
  pub admitted : elem t excluded ≡ false

module _ (h : Host) (test : Fields → Bool) (excluded : List String) where
  tokens_where-cons :
      (k : String) (item : Fields) (m : Map Fields)
      → IsAccount k item
      → tokens_where h test excluded ((k, item) ∷ m) ≡ (
          if test item && not (elem k excluded)
          then k ∷ tokens_where h test excluded m
          else tokens_where h test excluded m)
  unfolding tokens_where
  tokens_where-cons k item m a =
      rw (s-str h item "access_token" k a.token) (ground (arith, a.named))

  pub tokens_where-Serves :
      (m : Map Fields) (t : String)
      → IsDistinct m
      → Entries IsAccount m
      → elem t (tokens_where h test excluded m) ≡ true
      → Serves test excluded m t
  unfolding get
  tokens_where-Serves [] t d a e = absurd (let e' : false ≡ true = unfold tokens_where in e in cc)
  tokens_where-Serves ((k, item) ∷ m) t d a e =
      elim (Bool-cases (test item && not (elem k excluded) && k == t)) [
        | inl here ↦ record {
          item = item;
          account = ground (arith);
          passes = ground arith;
          admitted = ground (arith, eq_iff k t);
        }
        | inr there ↦
            let rest : elem t (tokens_where h test excluded m) ≡ true =
              (let e' = rw (tokens_where-cons k item m a.0) at e in ground arith) in
            let found = tokens_where-Serves m t d.1 a.1 rest in
            record {
              item = found.item;
              account = ground (arith, found.account, d.0, eq_iff k t);
              passes = found.passes;
              admitted = found.admitted;
            }
      ]

  pub Serves-tokens_where :
      (m : Map Fields) (t : String)
      → Entries IsAccount m
      → Serves test excluded m t
      → elem t (tokens_where h test excluded m) ≡ true
  unfolding get
  Serves-tokens_where [] t a e = absurd (let e' = e.account in cc)
  Serves-tokens_where ((k, item) ∷ m) t a e =
      rw (tokens_where-cons k item m a.0) (elim (Bool-cases (k == t)) [
        | inl here ↦ ground (arith, eq_iff k t, e.account, e.passes, e.admitted)
        | inr there ↦
            let rest = Serves-tokens_where m t a.1 (record {
              item = e.item;
              account = ground (arith, e.account);
              passes = e.passes;
              admitted = e.admitted;
            }) in
            ground (arith, rest)
      ])

-- With a well-formed pool, a token is a ready candidate exactly when it is the token of an account
-- in the pool that is available, has the plan and the source that the request asks for, and is not
-- excluded.
pub list_ready_candidate_tokens_iff :
    (h : Host) (r : Request) (p : Pool) (t : String)
    → IsValid p
    → (elem t (list_ready_candidate_tokens h r p) ≡ true)
      ↔ Serves (matches h r) r.excluded p.accounts t
unfolding list_ready_candidate_tokens
list_ready_candidate_tokens_iff h r p t v = (
  tokens_where-Serves h (matches h r) r.excluded p.accounts t v.distinct v.accounts,
  Serves-tokens_where h (matches h r) r.excluded p.accounts t v.accounts,
)
