-- ===== src/Net/Chain/Hops.antt =====
-- The hops of a route that is accepted: contiguous layers and distinct peers, and where their
-- credentials go.
use common_network.Prelude.{
  ℕ, suc, ◌<◌, ◌≤◌, String, ◌≡◌, refl, ap, inl, inr, Bool, true, ◌&&◌, ◌||◌, not, Option, some,
  List, [], ◌∷◌, arith, ltb, ◌==◌, text_eq, number_eq, length, All, Option-cases,
}
use common_network.Prelude.Result.{Gives, Gives->>=, Gives-guard}
use common_network.Net.Json.{
  Json, null, flag, int, negative, real, text, arr, obj, Items, nil, cons, items_length, Fields,
  get, has,
}
use common_network.Net.Protocol.{fields_of, check_layers}
use common_network.Net.Protocol.Checked.{
  IsProtocolError, fields_of-Gives, Gives-item, check_layers-Gives,
}
use common_network.Net.Chain.{
  Python, UrlParts, Hop, max_hops, is_some, is_origin, is_public, address_of, without_slashes,
  check_url, split_url, check_hop_token, check_hop_pin, check_hop,
}
use common_network.Prelude.Text.{text_length}
use common_network.Net.Chain.Origin.{
  IsOrigin, IsCredential, IsPin, is_origin-IsOrigin, check_url-Gives, check_hop_token-Gives,
  check_hop_pin-Gives,
}
use common_network.Net.Chain.Linked.{
  IsContiguous, IsDistinct, is_linked-IsContiguous, is_linked-IsDistinct,
}
use common_network.Net.Chain.Request.{is_linked, check_hops, check_route}

-- The layers of a hop ascend. Its address is that of an origin of at most 512 characters, which
-- unless private addresses are allowed is reached by https, is public, and is pinned when it is
-- numeric. Its credential and its pin, where it has them, are well formed.
pub record IsHop (py : Python) (allow_private : Bool) (hop : Hop) : Type 0 where
  pub ascending : hop.layers.0 < hop.layers.1
  pub origin : String
  pub parts : UrlParts
  pub named : hop.url ≡ without_slashes origin
  pub split : py.urlsplit origin ≡ some parts
  pub short : text_length origin ≤ 512
  pub plain : IsOrigin allow_private parts
  pub credential : IsCredential py hop.token
  pub fingerprint : IsPin hop.pin
  pub global : (is_public py (address_of py parts) || allow_private) ≡ true
  pub pinned :
      not (
        is_some (address_of py parts)
        && parts.scheme == "https"
        && not (is_some hop.pin)
        && not allow_private)
      ≡ true

pub record IsRoute (py : Python) (allow_private : Bool) (start : ℕ) (hops : List Hop) : Type 0 where
  pub bounded : length hops < max_hops
  pub each : All (IsHop py allow_private) hops
  pub contiguous : IsContiguous start hops
  pub distinct : IsDistinct hops

module _ (py : Python) (allow_private : Bool) where
  split_url-Gives :
      (url : String)
      → Gives IsProtocolError
          (λ (parts : UrlParts). py.urlsplit url ≡ some parts)
          (split_url py url)
  unfolding split_url
  split_url-Gives url = elim (Option-cases (py.urlsplit url)) [
    | inl e ↦ rw (Gives, split_url, e) tt
    | inr (parts, e) ↦ rw (Gives, split_url, e) e
  ]

module _ (py : Python) (allow_private : Bool) {Real : Type 0} where
  check_hop-Gives :
      (j : Json Real)
      → Gives IsProtocolError (IsHop py allow_private) (check_hop py allow_private j)
  unfolding check_hop
  check_hop-Gives j =
      Gives->>= IsProtocolError _ (IsHop py allow_private) (fields_of j "chain hop" _ _) _
        (fields_of-Gives j "chain hop" _ _)
        (λ (fs : Fields Real) (h : All (λ (k : String). has k fs ≡ true) ("url" ∷ "layers" ∷ [])).
          Gives-item (IsHop py allow_private) "url" fs _ h.0 (λ (v : Json Real).
            Gives->>= IsProtocolError _ (IsHop py allow_private) (check_url py v) _
              (check_url-Gives py v)
              (λ (url : String) (short : text_length url ≤ 512).
                Gives->>= IsProtocolError _ (IsHop py allow_private) (split_url py url) _
                  (split_url-Gives py allow_private url)
                  (λ (parts : UrlParts) (e : py.urlsplit url ≡ some parts).
                    Gives-guard IsProtocolError (IsHop py allow_private)
                      (is_origin py allow_private parts) _ _ tt
                      (λ o.
                        Gives-guard IsProtocolError (IsHop py allow_private)
                          (is_public py (address_of py parts) || allow_private) _ _ tt
                          (λ g.
                            Gives->>= IsProtocolError (IsCredential py) (IsHop py allow_private)
                              (check_hop_token py (get "token" fs)) _
                              (check_hop_token-Gives py (get "token" fs))
                              (λ (token : Option String) (c : IsCredential py token).
                                Gives->>= IsProtocolError IsPin (IsHop py allow_private)
                                  (check_hop_pin py (get "pin" fs)) _
                                  (check_hop_pin-Gives py (get "pin" fs))
                                  (λ (pin : Option String) (f : IsPin pin).
                                    Gives-guard IsProtocolError (IsHop py allow_private)
                                      (not (
                                        is_some (address_of py parts)
                                        && parts.scheme == "https"
                                        && not (is_some pin)
                                        && not allow_private))
                                      _ _ tt
                                      (λ p.
                                        Gives-item (IsHop py allow_private) "layers" fs _ h.1.0
                                          (λ (u : Json Real).
                                            Gives->>= IsProtocolError _ (IsHop py allow_private)
                                              (check_layers u) _ (check_layers-Gives u)
                                              (λ (layers : ℕ × ℕ) (l : layers.0 < layers.1).
                                                record {
                                                  ascending = l;
                                                  origin = url;
                                                  parts = parts;
                                                  named = refl;
                                                  split = e;
                                                  short = short;
                                                  plain =
                                                      is_origin-IsOrigin py allow_private parts o;
                                                  credential = c;
                                                  fingerprint = f;
                                                  global = g;
                                                  pinned = p;
                                                })))))))))))

  check_hops-Gives :
      (xs : Items Real)
      → Gives IsProtocolError
          (λ (hops : List Hop). (length hops ≡ items_length xs) × All (IsHop py allow_private) hops)
          (check_hops py allow_private xs)
  unfolding check_hops
  check_hops-Gives nil = (refl, tt)
  check_hops-Gives (cons x xs) =
      Gives->>= IsProtocolError (IsHop py allow_private) _ (check_hop py allow_private x) _
        (check_hop-Gives x)
        (λ (hop : Hop) (v : IsHop py allow_private hop).
          Gives->>= IsProtocolError _ _ (check_hops py allow_private xs) _ (check_hops-Gives xs)
            (λ (hops : List Hop)
                (h : (length hops ≡ items_length xs) × All (IsHop py allow_private) hops).
              (ap suc h.0, (v, h.1))))

  -- A route that is accepted is well formed.
  pub check_route-Gives :
      (start : ℕ) (j : Json Real)
      → Gives IsProtocolError
          (IsRoute py allow_private start)
          (check_route py allow_private start j)
  unfolding check_route
  check_route-Gives start (arr xs) =
      Gives-guard IsProtocolError (IsRoute py allow_private start) (ltb (items_length xs) max_hops)
        _ _ tt
        (λ b.
          Gives->>= IsProtocolError _ (IsRoute py allow_private start)
            (check_hops py allow_private xs) _ (check_hops-Gives xs)
            (λ (hops : List Hop)
                (h : (length hops ≡ items_length xs) × All (IsHop py allow_private) hops).
              Gives-guard IsProtocolError (IsRoute py allow_private start) (is_linked start [] hops)
                _ _ tt
                (λ l. record {
                  bounded = ground arith;
                  each = h.1;
                  contiguous = is_linked-IsContiguous start [] hops l;
                  distinct = is_linked-IsDistinct start [] hops l;
                })))
  check_route-Gives start null = tt
  check_route-Gives start (flag b) = tt
  check_route-Gives start (int n) = tt
  check_route-Gives start (negative n) = tt
  check_route-Gives start (real x) = tt
  check_route-Gives start (text s) = tt
  check_route-Gives start (obj fs) = tt
