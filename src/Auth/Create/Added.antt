-- ===== src/Auth/Create/Added.antt =====
-- What `create_key` leaves: the keys that were there and the new one, which opens the service.
use model2api.Common.{
  ℕ, suc, String, ◌≡◌, refl, subst, ap, sym, Bool, true, false, ◌&&◌, List, [], ◌∷◌, ◌++◌, ◌⊎◌, inl,
  inr, ◌==◌, trim, All, Option-cases, arith, length,
}
use model2api.Json.{Value, Host}
use model2api.Storage.{StorageBackend, IsStorage}
use model2api.Auth.{
  AuthKeyItem, Inner, Draw, public, default_name, any, other_id, has_key_hash, build_name, save,
}
use model2api.Auth.Create.{
  Created, created, refused, draws, draw_key, create_key, create_loaded, create_named, push_item,
  new_item,
}
use model2api.Auth.Items.{
  IsHost, IsClean, IsItem, IsGood, Differ, Holds, clashes, load-Holds, save-Holds,
}
use model2api.Auth.Create.Accepts.{
  IsNumbered, IsFree, IsAccepted, Result-cases, build_name-IsFree, draw_key-IsAccepted,
}

any-snoc {ℓ} :
    {A : Type ℓ} (test : A → Bool) (xs : List A) (x : A)
    → any test xs ≡ false
    → test x ≡ false
    → any test (xs ++ (x ∷ [])) ≡ false
any-snoc test [] x a b = ground arith
any-snoc test (y ∷ xs) x a b = ground (arith, any-snoc test xs x)

-- A new key that clashes with none.
any_clash :
    (items : List AuthKeyItem) (new : AuthKeyItem)
    → All IsItem items
    → any (λ i. i.id == new.id) items ≡ false
    → has_key_hash items new.key_hash "" ≡ false
    → any (λ i. other_id "" i && i.role == new.role && i.name == new.name) items ≡ false
    → any (λ i. clashes i new) items ≡ false
unfolding has_key_hash
any_clash [] new v a b c = refl
any_clash (i ∷ items) new v a b c =
    let named = v.0.hash.named in ground (arith, any_clash items new v.1)

Differ-snoc :
    (items : List AuthKeyItem) (new : AuthKeyItem)
    → Differ items
    → any (λ i. clashes i new) items ≡ false
    → Differ (items ++ (new ∷ []))
Differ-snoc [] new d c = (refl, tt)
Differ-snoc (i ∷ items) new d c =
    (any-snoc (clashes i) items new d.0 (ground arith), Differ-snoc items new d.1 (ground arith))

All-snoc :
    (items : List AuthKeyItem) (new : AuthKeyItem)
    → All IsItem items
    → IsItem new
    → All IsItem (items ++ (new ∷ []))
All-snoc [] new v is = (is, tt)
All-snoc (i ∷ items) new v is = (v.0, All-snoc items new v.1 is)

-- The keys after a key was added: those that were there, and a new one at the end, enabled, with the
-- role that was asked for and the hash of the raw key that is answered.
pub record Added (b : StorageBackend) (h : Host) (items : List AuthKeyItem) (role raw_key : String)
    (shown : Value) (t : Inner b) : Type 0 where
  pub new : AuthKeyItem
  pub stored : Holds b t.stored (items ++ (new ∷ []))
  pub memory : t.items ≡ items ++ (new ∷ [])
  pub answer : shown ≡ public new
  pub of_role : new.role ≡ role
  pub enabled : new.enabled ≡ true
  pub hash : new.key_hash ≡ h.sha256_hex (trim raw_key)
  pub named : (trim raw_key == "") ≡ false

-- What is drawn for a new key: an id that no key has, and the time.
pub record IsFresh (items : List AuthKeyItem) (d : Draw) : Type 0 where
  pub id : IsClean d.uuid12
  pub now : IsClean d.now_iso
  pub unused : any (λ i. i.id == d.uuid12) items ≡ false

new_item-IsItem :
    (h : Host) (items : List AuthKeyItem) (d : Draw) (role name raw_key key_hash : String)
    → IsHost h
    → IsFresh items d
    → (role ≡ "admin") ⊎ (role ≡ "user")
    → IsFree items role "" name
    → IsAccepted h items "" raw_key key_hash
    → IsItem (new_item d role name key_hash)
unfolding new_item
new_item-IsItem h items d role name raw_key key_hash is f r n a = record {
  role = r;
  id = f.id;
  name = n.clean;
  hash = record {
    trimmed = rw a.hash (is.hash_trimmed (trim raw_key));
    named = rw a.hash (is.hash_named (trim raw_key));
  };
  created = f.now;
  used = tt;
}

new_item-IsGood :
    (h : Host) (items : List AuthKeyItem) (d : Draw) (role name raw_key key_hash : String)
    → IsHost h
    → IsGood items
    → IsFresh items d
    → (role ≡ "admin") ⊎ (role ≡ "user")
    → IsFree items role "" name
    → IsAccepted h items "" raw_key key_hash
    → IsGood (items ++ (new_item d role name key_hash ∷ []))
unfolding new_item
new_item-IsGood h items d role name raw_key key_hash is g f r n a =
    let new = new_item d role name key_hash in
    record {
      each =
          All-snoc items new g.each
            (new_item-IsItem h items d role name raw_key key_hash is f r n a);
      differ = Differ-snoc items new g.differ (any_clash items new g.each f.unused a.free n.free);
    }

push_item-Added :
    (b : StorageBackend) (h : Host) (save_error : String) (inner t : Inner b) (new : AuthKeyItem)
    (raw_key raw : String) (v : Value)
    → IsStorage b
    → IsGood (inner.items ++ (new ∷ []))
    → new.enabled ≡ true
    → new.key_hash ≡ h.sha256_hex (trim raw_key)
    → (trim raw_key == "") ≡ false
    → push_item b save_error inner new raw_key ≡ (created v raw, t)
    → Added b h inner.items new.role raw v t
unfolding push_item
push_item-Added b h save_error inner t new raw_key raw v is g on hash named e =
    let pushed : Inner b = record inner { items = inner.items ++ (new ∷ []) } in
    elim (Option-cases (save b pushed)) [
      | inl failed ↦ absurd (
          let e' : ◌≡◌ {A = Created × Inner b} (refused save_error, pushed) (created v raw, t) =
            rw (failed, push_item) at e in
          let no_way : refused save_error ≡ created v raw = ap (λ p. p.0) e' in cc)
      | inr (saved, wrote) ↦
          let e' : ◌≡◌ {A = Created × Inner b} (created (public new) raw_key, saved)
              (created v raw, t) =
            rw (wrote, push_item) at e in
          let answer : created (public new) raw_key ≡ created v raw = ap (λ p. p.0) e' in
          let shown : public new ≡ v = cc in
          let same : raw_key ≡ raw = cc in
          let (held, items, flushed) = save-Holds b pushed saved is g wrote in
          subst (Added b h inner.items new.role raw v) (ap (λ p. p.1) e') (record {
            new = new;
            stored = held;
            memory = items;
            answer = sym shown;
            of_role = refl;
            enabled = on;
            hash = subst (λ x. new.key_hash ≡ h.sha256_hex (trim x)) same hash;
            named = subst (λ x. (trim x == "") ≡ false) same named;
          })
    ]

create_named-Added :
    (b : StorageBackend) (h : Host) (admin_key save_error role name : String) (fresh : Draw)
    (tokens : List String) (inner t : Inner b) (raw : String) (v : Value)
    → IsHost h
    → IsStorage b
    → IsGood inner.items
    → IsFresh inner.items fresh
    → (role ≡ "admin") ⊎ (role ≡ "user")
    → IsFree inner.items role "" name
    → create_named b h admin_key fresh tokens save_error role inner name ≡ (created v raw, t)
    → Added b h inner.items role raw v t
unfolding create_named new_item
create_named-Added b h admin_key save_error role name fresh tokens inner t raw v is st g f r n e =
    elim (Option-cases (draw_key h admin_key inner.items tokens)) [
      | inl used_up ↦ absurd (
          let e' : ◌≡◌ {A = Created × Inner b} (draws, inner) (created v raw, t) =
            rw (used_up, create_named) at e in
          let no_way : draws ≡ created v raw = ap (λ p. p.0) e' in cc)
      | inr ((raw_key, key_hash), drawn) ↦
          let e' : push_item b save_error inner (new_item fresh role name key_hash) raw_key
              ≡ (created v raw, t) =
            rw (drawn, create_named) at e in
          let a = draw_key-IsAccepted h admin_key inner.items tokens raw_key key_hash drawn in
          push_item-Added b h save_error inner t (new_item fresh role name key_hash) raw_key raw v
            st (new_item-IsGood h inner.items fresh role name raw_key key_hash is g f r n a) refl
            a.hash a.named e'
    ]

create_loaded-Added :
    (b : StorageBackend) (h : Host) (admin_key save_error role name : String) (fresh : Draw)
    (tokens : List String) (inner t : Inner b) (raw : String) (v : Value)
    → IsHost h
    → IsStorage b
    → IsGood inner.items
    → IsFresh inner.items fresh
    → (role ≡ "admin") ⊎ (role ≡ "user")
    → IsNumbered h (default_name h role) (suc (length inner.items))
    → create_loaded b h admin_key fresh tokens save_error role name inner ≡ (created v raw, t)
    → Added b h inner.items role raw v t
unfolding create_loaded
create_loaded-Added b h admin_key save_error role name fresh tokens inner t raw v is st g f r n e =
    elim (Result-cases (build_name h inner.items name role "")) [
      | inr (m, taken) ↦ absurd (
          let e' : ◌≡◌ {A = Created × Inner b} (refused m, inner) (created v raw, t) =
            rw (taken, create_loaded) at e in
          let no_way : refused m ≡ created v raw = ap (λ p. p.0) e' in cc)
      | inl (given, named) ↦
          create_named-Added b h admin_key save_error role given fresh tokens inner t raw v is st g
            f r (build_name-IsFree h inner.items name role "" given n named)
            (rw (named, create_loaded) at e)
    ]

-- A key that is created is stored behind the keys that were stored, all of them as they were and no
-- two of them with one id, one hash, or one name in a role; it is enabled, has the role that was
-- asked for and the hash of the raw key that is answered, and is shown as it is stored. The new id
-- is taken to be one that no key has.
pub create_key-Added :
    (b : StorageBackend) (h : Host) (admin_key save_error role name : String) (d : ℕ → Draw)
    (fresh : Draw) (tokens : List String) (inner t : Inner b) (items : List AuthKeyItem)
    (raw : String) (v : Value)
    → IsHost h
    → IsStorage b
    → Holds b inner.stored items
    → IsFresh items fresh
    → (role ≡ "admin") ⊎ (role ≡ "user")
    → IsNumbered h (default_name h role) (suc (length items))
    → create_key b h admin_key d fresh tokens save_error role name inner ≡ (created v raw, t)
    → Added b h items role raw v t
unfolding create_key
create_key-Added b h admin_key save_error role name d fresh tokens inner t items raw v is st held f
      r n e =
    let same = load-Holds b h d inner.stored items is held in
    create_loaded-Added b h admin_key save_error role name fresh tokens
      (record inner { items = items }) t raw v is st held.good f r n (rw same at e)
