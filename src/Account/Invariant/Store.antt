-- ===== src/Account/Invariant/Store.antt =====
-- Storing a normalised account under its own token, and dropping an account, keep the pool
-- well formed.
use model2api.Common.{String, ◌≡◌, refl, false, Option, none, some, ◌==◌, subst}
use model2api.Common.Maps.{
  get, Entries-insert, Entries-remove, Entries-get, insert-IsDistinct, remove-IsDistinct,
}
use model2api.Json.{Fields, Host, str, get_field}
use model2api.Account.State.{Pool, Service, save_accounts_locked}
use model2api.Account.Invariant.{IsAccount, IsValid, normalize_object-IsAccount}
use model2api.Account.Normalize.{normalize_object, normalize_fields, token_of}
use model2api.Account.Updates.{put_account, drop_account, save_changed}

pub put_account-IsValid :
    (t : String) (account : Fields) (p : Pool)
    → IsAccount t account
    → IsValid p
    → IsValid (put_account t account p)
put_account-IsValid t account p a v = record {
  distinct = insert-IsDistinct t account p.accounts v.distinct;
  accounts = Entries-insert IsAccount t account p.accounts v.accounts a;
}

pub drop_account-IsValid : (t : String) (p : Pool) → IsValid p → IsValid (drop_account t p)
drop_account-IsValid t p v = record {
  distinct = remove-IsDistinct t p.accounts v.distinct;
  accounts = Entries-remove IsAccount t p.accounts v.accounts;
}

token_of-str :
    (m : Fields) (t : String)
    → get_field "access_token" m ≡ some (str t)
    → (t == "") ≡ false
    → token_of m ≡ t
token_of-str m t e named = rw e (rw named)

-- A normalised object is an account of the token that it carries.
pub normalize_object-token :
    (h : Host) (now t : String) (m account : Fields)
    → get_field "access_token" m ≡ some (str t)
    → (t == "") ≡ false
    → normalize_object h now m ≡ some account
    → IsAccount t account
normalize_object-token h now t m account e named done =
    subst (λ u. IsAccount u account) (token_of-str m t e named)
      (normalize_object-IsAccount h now m account done)

pub normalize_object-eq :
    (h : Host) (now t : String) (m : Fields)
    → get_field "access_token" m ≡ some (str t)
    → (t == "") ≡ false
    → normalize_object h now m ≡ some (normalize_fields h now t m)
unfolding normalize_object
normalize_object-eq h now t m e named = rw (token_of-str m t e named, named)

-- An object that carries a token has a normal form.
pub normalize_object-total :
    (h : Host) (now t : String) (m : Fields)
    → get_field "access_token" m ≡ some (str t)
    → (t == "") ≡ false
    → (account : Fields) × (normalize_object h now m ≡ some account) × IsAccount t account
normalize_object-total h now t m e named =
    let done : normalize_object h now m ≡ some (normalize_fields h now (token_of m) m) =
      unfold normalize_object in rw (token_of-str m t e named, named) in
    (
      normalize_fields h now (token_of m) m,
      done,
      normalize_object-token h now t m (normalize_fields h now (token_of m) m) e named done,
    )

pub get-IsAccount :
    (p : Pool) (t : String) (item : Fields)
    → IsValid p
    → get t p.accounts ≡ some item
    → IsAccount t item
get-IsAccount p t item v e = Entries-get IsAccount t p.accounts item v.accounts e

pub save_changed-IsValid :
    (t : String) (s : Service) (o : Option Fields)
    → ((a : Fields) → o ≡ some a → IsAccount t a)
    → IsValid s.pool
    → IsValid (save_changed t s o).pool
unfolding save_changed save_accounts_locked
save_changed-IsValid t s none a v = v
save_changed-IsValid t s (some account) a v =
    put_account-IsValid t account s.pool (a account refl) v

-- Only the accounts matter.
pub IsValid-accounts : (p q : Pool) → q.accounts ≡ p.accounts → IsValid p → IsValid q
IsValid-accounts p q e v = record { distinct = rw e v.distinct; accounts = rw e v.accounts }
