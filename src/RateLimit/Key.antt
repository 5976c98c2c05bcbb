-- ===== src/RateLimit/Key.antt =====
-- The keys under which src/rate_limit.rs counts, from the identity of
-- src/client_ip.rs. A text is the list of its code points.
use ferroada.Prelude.{
  ℕ, ◌≡◌, ◌↔◌, List, [], ◌∷◌, ◌++◌, Bool, true, false, ◌&&◌, Option, none, some, list_eq, ap, arith,
  sym, refl, list_eq→eq, list_eq_self, ◌∙◌, subst, suc, zero,
}
use ferroada.Net.{IpAddr}
use ferroada.ClientIp.Identity.{SiteClientKey, RiskIdentity, network_key}
use ferroada.DashMap.{Eq}

pub data RateKey : Type 0 where
  network : SiteClientKey → RateKey
  route : SiteClientKey → List ℕ → RateKey
  session api_key jwt_sub jwt_tenant : List ℕ → ℕ → RateKey

-- The derived equality, by the constructor and its fields.
abbrev address : IpAddr → List ℕ
address (IpAddr.v4 a) = 0 ∷ a ∷ []
address (IpAddr.v6 a) = 1 ∷ a ∷ []

abbrev fields : RateKey → List (List ℕ)
fields (RateKey.network c) = (0 ∷ []) ∷ c.site ∷ address c.network ∷ []
fields (RateKey.route c r) = (1 ∷ []) ∷ c.site ∷ address c.network ∷ r ∷ []
fields (RateKey.session s h) = (2 ∷ []) ∷ s ∷ (h ∷ []) ∷ []
fields (RateKey.api_key s h) = (3 ∷ []) ∷ s ∷ (h ∷ []) ∷ []
fields (RateKey.jwt_sub s h) = (4 ∷ []) ∷ s ∷ (h ∷ []) ∷ []
fields (RateKey.jwt_tenant s h) = (5 ∷ []) ∷ s ∷ (h ∷ []) ∷ []

abbrev fields_eq : List (List ℕ) → List (List ℕ) → Bool
fields_eq [] [] = true
fields_eq (x ∷ xs) (y ∷ ys) = list_eq x y && fields_eq xs ys
fields_eq _ _ = false

fields_eq→eq : (xs ys : List (List ℕ)) → fields_eq xs ys ≡ true → xs ≡ ys
fields_eq→eq [] [] h = refl
fields_eq→eq (x ∷ xs) (y ∷ ys) h = ground (arith, fields_eq→eq xs ys, list_eq→eq x y)
fields_eq→eq [] (y ∷ ys) h = cc
fields_eq→eq (x ∷ xs) [] h = cc

fields_eq_self : (xs : List (List ℕ)) → fields_eq xs xs ≡ true
fields_eq_self [] = refl
fields_eq_self (x ∷ xs) = ground (arith, fields_eq_self xs, list_eq_self x)

-- The fields determine the key.
abbrev ip_of : List ℕ → IpAddr
ip_of (zero ∷ a ∷ []) = IpAddr.v4 a
ip_of (suc zero ∷ a ∷ []) = IpAddr.v6 a
ip_of _ = IpAddr.v4 0

abbrev number_of : List ℕ → ℕ
number_of (h ∷ []) = h
number_of _ = 0

abbrev client_of : List ℕ → List ℕ → SiteClientKey
client_of s a = record { site = s; network = ip_of a }

abbrev key_of : List (List ℕ) → RateKey
key_of ((zero ∷ []) ∷ s ∷ a ∷ []) = RateKey.network (client_of s a)
key_of (((suc zero) ∷ []) ∷ s ∷ a ∷ r ∷ []) = RateKey.route (client_of s a) r
key_of (((suc (suc zero)) ∷ []) ∷ s ∷ h ∷ []) = RateKey.session s (number_of h)
key_of (((suc (suc (suc zero))) ∷ []) ∷ s ∷ h ∷ []) = RateKey.api_key s (number_of h)
key_of (((suc (suc (suc (suc zero)))) ∷ []) ∷ s ∷ h ∷ []) = RateKey.jwt_sub s (number_of h)
key_of (((suc (suc (suc (suc (suc zero))))) ∷ []) ∷ s ∷ h ∷ []) = RateKey.jwt_tenant s (number_of h)
key_of _ = RateKey.session [] 0

ip_of-address : (a : IpAddr) → ip_of (address a) ≡ a
ip_of-address (IpAddr.v4 a) = refl
ip_of-address (IpAddr.v6 a) = refl

key_of-fields : (k : RateKey) → key_of (fields k) ≡ k
key_of-fields (RateKey.network c) =
    ap (λ a. RateKey.network (record { site = c.site; network = a })) (ip_of-address c.network)
key_of-fields (RateKey.route c r) =
    ap (λ a. RateKey.route (record { site = c.site; network = a }) r) (ip_of-address c.network)
key_of-fields (RateKey.session s h) = refl
key_of-fields (RateKey.api_key s h) = refl
key_of-fields (RateKey.jwt_sub s h) = refl
key_of-fields (RateKey.jwt_tenant s h) = refl

abbrev pub same_key : RateKey → RateKey → Bool
same_key a b = fields_eq (fields a) (fields b)

pub same_key_iff : (a b : RateKey) → (same_key a b ≡ true) ↔ (a ≡ b)
same_key_iff a b = (
  λ h. sym (key_of-fields a) ∙ ap key_of (fields_eq→eq (fields a) (fields b) h) ∙ key_of-fields b,
  λ e. subst (λ c. same_key a c ≡ true) e (fields_eq_self (fields a)),
)

instance abbrev pub key_eq : Eq RateKey
key_eq = record { beq = same_key; beq_iff = same_key_iff }

-- The keys of a request, in the order in which `check` tries them.
abbrev optional : Option ℕ → (ℕ → RateKey) → List RateKey
optional none key = []
optional (some hash) key = key hash ∷ []

unfoldable pub keys_of : RiskIdentity → List RateKey
unfolding network_key
keys_of i =
    RateKey.network (network_key i)
    ∷ RateKey.route (network_key i) i.route
    ∷ (optional i.session_hash (RateKey.session i.site)
        ++ optional i.api_key_hash (RateKey.api_key i.site)
        ++ optional i.jwt_sub_hash (RateKey.jwt_sub i.site)
        ++ optional i.jwt_tenant_hash (RateKey.jwt_tenant i.site))
