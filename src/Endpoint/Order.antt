-- ===== src/Endpoint/Order.antt =====
-- The order of endpoints: IPv6 before IPv4, or those of one family, always as they were resolved.
use mathlib.Core.List.{append-nil, append_assoc}
use port_forward_x.Prelude.{◌≡◌, refl, ◌⊎◌, inl, inr, List, [], ◌∷◌, ◌++◌, arith, All, keep, length}
use port_forward_x.Config.{auto, ipv4_only, ipv6_only}
use port_forward_x.System.{NativeFamily, af_inet, af_inet6}
use port_forward_x.Endpoint.{
  ResolvedEndpoint, is_ipv6_endpoint, is_ipv4_endpoint, family_eq, endpoint_less, insert,
  stable_sort, filter_loop, sort_endpoints,
}

abbrev pub IsIp : ResolvedEndpoint → Type 0
IsIp e = (e.family ≡ af_inet6) ⊎ (e.family ≡ af_inet)

-- The IPv6 endpoints before the IPv4 ones.
abbrev pub ipv6_first : List ResolvedEndpoint → List ResolvedEndpoint
ipv6_first es = keep is_ipv6_endpoint es ++ keep is_ipv4_endpoint es

insert-ipv6 :
    (x : ResolvedEndpoint) (es : List ResolvedEndpoint)
    → x.family ≡ af_inet6
    → insert endpoint_less x es ≡ x ∷ es
unfolding insert
insert-ipv6 x [] h = refl
insert-ipv6 x (y ∷ es) h = ground arith

insert-ipv4 :
    (x : ResolvedEndpoint) (es fs : List ResolvedEndpoint)
    → x.family ≡ af_inet
    → insert endpoint_less x (keep is_ipv6_endpoint es ++ keep is_ipv4_endpoint fs)
      ≡ keep is_ipv6_endpoint es ++ x ∷ keep is_ipv4_endpoint fs
unfolding insert
insert-ipv4 x [] [] h = refl
insert-ipv4 x [] (f ∷ fs) h = ground (arith, insert-ipv4 x [] fs h)
insert-ipv4 x (e ∷ es) fs h = ground (arith, insert-ipv4 x es fs h)

stable_sort-ipv6_first :
    (es : List ResolvedEndpoint) → All IsIp es → stable_sort endpoint_less es ≡ ipv6_first es
unfolding stable_sort
stable_sort-ipv6_first [] h = refl
stable_sort-ipv6_first (e ∷ es) (inl v6, rest) =
    rw (stable_sort-ipv6_first es rest) (ground (arith, insert-ipv6 e (ipv6_first es) v6))
stable_sort-ipv6_first (e ∷ es) (inr v4, rest) =
    rw (stable_sort-ipv6_first es rest) (ground (arith, insert-ipv4 e es es v4))

filter_loop-keep :
    (native : NativeFamily) (es out : List ResolvedEndpoint)
    → filter_loop native es out ≡ out ++ keep (λ e. family_eq e.family native) es
unfolding filter_loop
filter_loop-keep native [] out = rw append-nil
filter_loop-keep native (e ∷ es) out =
    rw (filter_loop-keep native es)
      (ground (arith, append_assoc out (e ∷ []) (keep (λ x. family_eq x.family native) es)))

-- With no preferred family and endpoints of IPv6 and IPv4 only, the sorted endpoints are the IPv6
-- ones in their order, then the IPv4 ones in their order.
pub sort_endpoints_auto :
    (es : List ResolvedEndpoint) → All IsIp es → sort_endpoints es auto ≡ ipv6_first es
unfolding sort_endpoints
sort_endpoints_auto es ip = stable_sort-ipv6_first es ip

-- With a preferred family the sorted endpoints are those of this family in their order.
pub sort_endpoints_only :
    (es : List ResolvedEndpoint)
    → (sort_endpoints es ipv4_only ≡ keep is_ipv4_endpoint es)
      × (sort_endpoints es ipv6_only ≡ keep is_ipv6_endpoint es)
unfolding sort_endpoints
sort_endpoints_only es = (filter_loop-keep af_inet es [], filter_loop-keep af_inet6 es [])

length-insert :
    (x : ResolvedEndpoint) (es : List ResolvedEndpoint)
    → length (insert endpoint_less x es) ≡ length (x ∷ es)
unfolding insert
length-insert x [] = refl
length-insert x (y ∷ es) = ground (arith, length-insert x es)

length-stable_sort :
    (es : List ResolvedEndpoint) → length (stable_sort endpoint_less es) ≡ length es
unfolding stable_sort
length-stable_sort [] = refl
length-stable_sort (e ∷ es) =
    omega (arith, length-insert e (stable_sort endpoint_less es), length-stable_sort es)

-- Sorting with no preferred family loses no endpoint, whatever the families.
length-sort_endpoints : (es : List ResolvedEndpoint) → length (sort_endpoints es auto) ≡ length es
unfolding sort_endpoints
length-sort_endpoints es = length-stable_sort es
