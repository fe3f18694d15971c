-- ===== src/Selection/Grounding.antt =====
-- claim_selection.py, materialize_selection: an accepted choice is made of pinned claims.
use parliament.Base.{
  leb, leb→le, opt_eq, &&-eq-true, ok-injective, length, any, is_nil, All, Result, ok, err, require,
  >>=-eq-ok, >>-eq-ok, require-eq-ok, suc, ◌≤◌, String, ◌≡◌, refl, sym, ap, ◌∙◌, subst, Bool, true,
  ◌&&◌, Option, none, some, List, [], ◌∷◌, map, arith,
}
use parliament.Value.{Value, Fields}
use parliament.Jobs.{distinct}
use parliament.Selection.Choice.{
  Context, Selected, lookup, chosen, known_claim, id_texts, claims_of, claim_url, claim_urls,
  claim_texts, covers, materialize_selection, then_some,
}

-- the host of a claim's source, if it has one
abbrev pub url_host : (String → Option String) → Result (Option String) → Option String
url_host host_of (ok u) = then_some host_of u
url_host host_of (err e) = none

-- some claim stands for the host
pub has_host : (String → Option String) → List Fields → String → Bool
has_host host_of claims h = any (λ c. opt_eq (some h) (url_host host_of (claim_url c))) claims

-- a pinned claim: what some alias of the context stands for
abbrev pub IsPinned : Context → Fields → Type 0
IsPinned c claim = (alias : String) × (lookup alias c.aliases ≡ some claim)

claims_of-length :
    (aliases : List (String × Fields)) (ids : List String) (claims : List Fields)
    → claims_of aliases ids ≡ ok claims
    → length claims ≡ length ids
unfolding claims_of
claims_of-length aliases [] claims h = sym (ap (λ x. length x) (ok-injective h))
claims_of-length aliases (i ∷ ids) claims h =
    let (c, _, h1) = >>=-eq-ok (known_claim (lookup i aliases)) _ h in
    let (cs, g, h2) = >>=-eq-ok (claims_of aliases ids) _ h1 in
    sym (ap (λ x. length x) (ok-injective h2)) ∙ ap suc (claims_of-length aliases ids cs g)

known_claim-eq : {d : Fields} (o : Option Fields) → known_claim o ≡ ok d → o ≡ some d
unfolding known_claim
known_claim-eq none e = cc
known_claim-eq (some x) e = ap some (ok-injective e)

claims_of-IsPinned :
    (c : Context) (ids : List String) (claims : List Fields)
    → claims_of c.aliases ids ≡ ok claims
    → All (IsPinned c) claims
unfolding claims_of
claims_of-IsPinned c [] claims h = subst (All (IsPinned c)) (ok-injective h) tt
claims_of-IsPinned c (i ∷ ids) claims h =
    let (d, f, h1) = >>=-eq-ok (known_claim (lookup i c.aliases)) _ h in
    let (ds, g, h2) = >>=-eq-ok (claims_of c.aliases ids) _ h1 in
    subst (All (IsPinned c)) (ok-injective h2)
      ((i, known_claim-eq (lookup i c.aliases) f), claims_of-IsPinned c ids ds g)

claim_urls-hosts :
    (host_of : String → Option String) (claims : List Fields) (urls : List (Option String))
    → claim_urls claims ≡ ok urls
    → map (then_some host_of) urls ≡ map (λ c. url_host host_of (claim_url c)) claims
unfolding claim_urls
claim_urls-hosts host_of [] urls h = sym (ap (map (then_some host_of)) (ok-injective h))
claim_urls-hosts host_of (c ∷ cs) urls h =
    let (u, f, h1) = >>=-eq-ok (claim_url c) _ h in
    let (us, g, h2) = >>=-eq-ok (claim_urls cs) _ h1 in
    let ih = claim_urls-hosts host_of cs us g in
    sym (ap (map (then_some host_of)) (ok-injective h2)) ∙ pair (ap (url_host host_of) (sym f)) ih
  where
    pair : {x y : Option String} {xs ys : List (Option String)} → x ≡ y → xs ≡ ys → x ∷ xs ≡ y ∷ ys
    pair e d = cc

any-map :
    (p : Option String → Bool) (f : Fields → Option String) (claims : List Fields)
    → any p (map f claims) ≡ any (λ c. p (f c)) claims
any-map p f [] = refl
any-map p f (c ∷ cs) = rw (any-map p f cs) refl

covers-has_host :
    (host_of : String → Option String) (required : List String) (claims : List Fields)
    → covers required (map (λ c. url_host host_of (claim_url c)) claims) ≡ true
    → All (λ h. has_host host_of claims h ≡ true) required
unfolding covers has_host
covers-has_host host_of [] claims e = tt
covers-has_host host_of (r ∷ rs) claims e =
    let (a, b) =
      &&-eq-true (any (opt_eq (some r)) (map (λ c. url_host host_of (claim_url c)) claims)) _ e in
    (
      sym (any-map (opt_eq (some r)) (λ c. url_host host_of (claim_url c)) claims) ∙ a,
      covers-has_host host_of rs claims b,
    )

-- Whatever a model returns, an accepted choice holds at most four claims, each of them one of the
-- pinned claims unchanged; it covers every required host; and it is insufficient exactly when it
-- holds no claim.
pub materialize_selection-IsPinned :
    (host_of : String → Option String) (c : Context) (output : Value) (s : Selected)
    → materialize_selection host_of c output ≡ ok s
    → All (IsPinned c) s.claims
      × (length s.claims ≤ 4)
      × All (λ h. has_host host_of s.claims h ≡ true) c.required_hosts
      × (s.insufficient ≡ is_nil s.claims)
unfolding materialize_selection
materialize_selection-IsPinned host_of c output s h =
    let (values, _, h1) = >>=-eq-ok (chosen c output) _ h in
    let (ids, _, h2) = >>=-eq-ok (id_texts values) _ h1 in
    let (g, h3) = >>-eq-ok (require (leb (length ids) 4 && distinct ids) _) _ h2 in
    let (claims, k, h4) = >>=-eq-ok (claims_of c.aliases ids) _ h3 in
    let (urls, u, h5) = >>=-eq-ok (claim_urls claims) _ h4 in
    let (w, h6) =
      >>-eq-ok (require (covers c.required_hosts (map (then_some host_of) urls)) _) _ h5 in
    let (_, h7) =
      >>-eq-ok
        (require (covers c.required_facets (map (then_some (λ x. lookup x c.source_facets)) urls))
          _)
        _ h6 in
    let (texts, _, h8) = >>=-eq-ok (claim_texts claims) _ h7 in
    let few = leb→le _ _ (&&-eq-true (leb (length ids) 4) _ (require-eq-ok _ _ g)).0 in
    let size = claims_of-length c.aliases ids claims k in
    let hosts = claim_urls-hosts host_of claims urls u in
    let covered =
      covers-has_host host_of c.required_hosts claims
        (subst (λ x. covers c.required_hosts x ≡ true) hosts (require-eq-ok _ _ w)) in
    subst
      (λ (x : Selected).
        All (IsPinned c) x.claims
        × (length x.claims ≤ 4)
        × All (λ r. has_host host_of x.claims r ≡ true) c.required_hosts
        × (x.insufficient ≡ is_nil x.claims))
      (ok-injective h8) (claims_of-IsPinned c ids claims k, omega (arith, few, size), covered, refl)
