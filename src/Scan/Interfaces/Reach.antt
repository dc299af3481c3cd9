-- ===== src/Scan/Interfaces/Reach.antt =====
-- When a scan that leaves the families to the program has its IPv6 half.
use rain_scanner.Base.{
  ℕ, ◌/◌, ◌%◌, ◌^◌, ◌≡◌, ◌≤◌, ◌↔◌, ◌⊎◌, inl, inr, refl, ap, sym, ◌∙◌, subst, Bool, true, false, not,
  ◌&&◌, ◌||◌, List, [], ◌∷◌, Option, none, some, if◌then◌else◌, ◌==◌, ==_iff, arith, leb, Text,
}
use rain_scanner.IpRange.Addr.{Addr, v4, v6, unmap}
use rain_scanner.Scan.Interfaces.{
  NetAddr, ip_net, other, Interface, addr_from_slice, is_link_local, is_private, is_routable,
  routable_slice, reaches, any_reaches, addrs_reach, any_interface, detect_global_ipv6,
  has_global_ipv6,
}

-- An element has the property.
abbrev pub Any {ℓ} : {A : Type ℓ} → (A → Type 0) → List A → Type 0
Any P [] = ⊥
Any P (x ∷ xs) = P x ⊎ Any P xs

-- By its first group of 16 bits: none of the local blocks fc00-fdff and fe80-febf and no multicast address; and neither
-- :: nor ::1 nor an IPv4 address in IPv6 form.
abbrev pub IsReachable : ℕ → ℕ → Type 0
IsReachable hi lo =
    let group = hi / 2 ^ 48 in
    (¬ ((0xfc00 ≤ group) × (group ≤ 0xfdff)))
    × (¬ ((0xfe80 ≤ group) × (group ≤ 0xfebf)))
    × (¬ ((0xff00 ≤ group) × (group ≤ 0xffff)))
    × (¬ ((hi ≡ 0) × (lo ≤ 1)))
    × (¬ ((hi ≡ 0) × (lo / 2 ^ 32 ≡ 0xffff)))

private_iff : (hi : ℕ) → (is_private hi ≡ true) ↔ ((0xfc00 ≤ hi / 2 ^ 48) × (hi / 2 ^ 48 ≤ 0xfdff))
private_iff hi = ground (arith, ==_iff (hi / 2 ^ 57) 0x7e)

link_local_iff :
    (hi : ℕ) → (is_link_local hi ≡ true) ↔ ((0xfe80 ≤ hi / 2 ^ 48) × (hi / 2 ^ 48 ≤ 0xfebf))
link_local_iff hi = ground (arith, ==_iff (hi / 2 ^ 54) 0x3fa)

multicast_iff :
    (hi : ℕ) → ((hi / 2 ^ 56 == 0xff) ≡ true) ↔ ((0xff00 ≤ hi / 2 ^ 48) × (hi / 2 ^ 48 ≤ 0xffff))
multicast_iff hi = ground (arith, ==_iff (hi / 2 ^ 56) 0xff)

low_iff : (hi lo : ℕ) → ((hi == 0 && leb lo 1) ≡ true) ↔ ((hi ≡ 0) × (lo ≤ 1))
low_iff hi lo = ground (arith, ==_iff hi 0)

mapped_iff :
    (hi lo : ℕ)
    → ((hi == 0 && (lo / 2 ^ 32 == 0xffff)) ≡ true) ↔ ((hi ≡ 0) × (lo / 2 ^ 32 ≡ 0xffff))
mapped_iff hi lo = ground (arith, ==_iff hi 0, ==_iff (lo / 2 ^ 32) 0xffff)

not_iff : {P : Type 0} (b : Bool) → (b ≡ true) ↔ P → (not b ≡ true) ↔ (¬ P)
not_iff true h = ((λ e. cc), λ n. absurd (n (h.0 refl)))
not_iff false h = ((λ e p. cc (h.1 p)), λ n. refl)

and_iff :
    {P Q : Type 0} (a b : Bool) → (a ≡ true) ↔ P → (b ≡ true) ↔ Q → ((a && b) ≡ true) ↔ (P × Q)
and_iff true b f g = ((λ e. (f.0 refl, g.0 e)), λ r. g.1 r.1)
and_iff false b f g = ((λ e. cc), λ r. cc (f.1 r.0))

not_mapped :
    (m : Bool) (n hi lo : ℕ) (z : Text)
    → is_routable (if m then v4 n else v6 hi lo z) ≡ (not m && is_routable (v6 hi lo z))
not_mapped true n hi lo z = refl
not_mapped false n hi lo z = refl

routable_iff :
    (hi lo : ℕ) (z : Text) → (is_routable (unmap (v6 hi lo z)) ≡ true) ↔ IsReachable hi lo
routable_iff hi lo z =
    let low = not_iff _ (low_iff hi lo) in
    let mc = not_iff _ (multicast_iff hi) in
    let ll = not_iff _ (link_local_iff hi) in
    let pr = not_iff _ (private_iff hi) in
    let whole =
      and_iff _ _ (not_iff _ (mapped_iff hi lo))
        (and_iff _ _ (and_iff _ _ low (and_iff _ _ mc ll)) (and_iff _ _ pr ll)) in
    rw (not_mapped (hi == 0 && (lo / 2 ^ 32 == 0xffff)) (lo % 2 ^ 32) hi lo z) (
      (λ e. let (m, ((l, (c, k)), (p, k'))) = whole.0 e in (p, k, c, l, m)),
      λ r. whole.1 (r.4, ((r.3, (r.2, r.1)), (r.0, r.1))),
    )

-- An address that an edge of a CDN can be reached from.
abbrev pub IsGlobal : NetAddr → Type 0
IsGlobal a =
    (bs : List ℕ) × (hi : ℕ) × (lo : ℕ) × (z : Text) × (a ≡ ip_net bs)
    × (addr_from_slice bs ≡ some (v6 hi lo z))
    × IsReachable hi lo

abbrev bytes_of : NetAddr → List ℕ
bytes_of (ip_net bs) = bs
bytes_of other = []

routable-IsGlobal :
    (bs : List ℕ) (o : Option Addr)
    → addr_from_slice bs ≡ o
    → (routable_slice o ≡ true) ↔ IsGlobal (ip_net bs)
routable-IsGlobal bs none e = ((λ h. cc), λ r. cc)
routable-IsGlobal bs (some (v4 n)) e = ((λ h. cc), λ r. cc)
routable-IsGlobal bs (some (v6 hi lo z)) e = (
  (λ h. (bs, hi, lo, z, refl, e, (routable_iff hi lo z).0 h)),
  λ (bs', hi', lo', z', a, b, r).
      let e' : addr_from_slice bs ≡ some (v6 hi' lo' z') =
        ap (λ x. addr_from_slice (bytes_of x)) a ∙ b in
      let same : some (v6 hi lo z) ≡ some (v6 hi' lo' z') = sym e ∙ e' in
      let same_hi : hi' ≡ hi = cc in
      let same_lo : lo' ≡ lo = cc in
      (routable_iff hi lo z).1
        (subst (λ h. IsReachable h lo) same_hi (subst (λ l. IsReachable hi' l) same_lo r)),
)

reaches_iff : (a : NetAddr) → (reaches a ≡ true) ↔ IsGlobal a
reaches_iff (ip_net bs) = routable-IsGlobal bs (addr_from_slice bs) refl
reaches_iff other = ((λ h. cc), λ r. cc)

any_iff :
    {P : Type 0} {Q : Type 0} (a b : Bool)
    → (a ≡ true) ↔ P
    → (b ≡ true) ↔ Q
    → ((a || b) ≡ true) ↔ (P ⊎ Q)
any_iff true b f g = ((λ h. inl (f.0 refl)), λ r. refl)
any_iff false b f g = ((λ h. inr (g.0 h)), λ r. elim r [ inl p ↦ cc (f.1 p) | inr q ↦ g.1 q ])

any_reaches_iff : (l : List NetAddr) → (any_reaches l ≡ true) ↔ Any IsGlobal l
unfolding any_reaches
any_reaches_iff [] = ((λ h. cc), λ r. absurd r)
any_reaches_iff (a ∷ l) = any_iff (reaches a) (any_reaches l) (reaches_iff a) (any_reaches_iff l)

-- An interface that is up, is not the loopback and has such an address.
abbrev pub IsUsable : Interface → Type 0
IsUsable i =
    (i.up ≡ true)
    × (i.loopback ≡ false)
    × ((l : List NetAddr) × (i.addrs ≡ some l) × Any IsGlobal l)

addrs_reach_iff :
    (o : Option (List NetAddr))
    → (addrs_reach o ≡ true) ↔ ((l : List NetAddr) × (o ≡ some l) × Any IsGlobal l)
addrs_reach_iff none = ((λ h. cc), λ r. cc)
addrs_reach_iff (some l) = (
  (λ h. (l, refl, (any_reaches_iff l).0 h)),
  λ (l', e, r). let same : l' ≡ l = cc in (any_reaches_iff l).1 (subst (Any IsGlobal) same r),
)

gate_iff :
    {P Q : Type 0} (u lb r rest : Bool)
    → (r ≡ true) ↔ P
    → (rest ≡ true) ↔ Q
    → ((if not u || lb then rest else r || rest) ≡ true) ↔ (((u ≡ true) × (lb ≡ false) × P) ⊎ Q)
gate_iff true true r rest f g = ((λ h. inr (g.0 h)), λ o. elim o [ inl p ↦ cc | inr q ↦ g.1 q ])
gate_iff true false r rest f g = any_iff r rest ((λ h. (refl, refl, f.0 h)), λ p. f.1 p.2) g
gate_iff false lb r rest f g = ((λ h. inr (g.0 h)), λ o. elim o [ inl p ↦ cc | inr q ↦ g.1 q ])

any_interface_iff : (l : List Interface) → (any_interface l ≡ true) ↔ Any IsUsable l
unfolding any_interface
any_interface_iff [] = ((λ h. cc), λ r. absurd r)
any_interface_iff (i ∷ l) =
    gate_iff i.up i.loopback (addrs_reach i.addrs) (any_interface l) (addrs_reach_iff i.addrs)
      (any_interface_iff l)

-- HasGlobalIPv6, asked for the first time on a machine that lists its interfaces, says yes exactly when one that is
-- up and is no loopback has an address that is in none of the local, multicast or special IPv6 blocks and is no IPv4
-- address in IPv6 form; and every later call answers the same, whatever has become of the interfaces.
pub has_global_ipv6_iff :
    (ifaces : List Interface) (later : Option (List Interface))
    → (((has_global_ipv6 (some ifaces) none).0 ≡ true) ↔ Any IsUsable ifaces)
      × (has_global_ipv6 later (has_global_ipv6 (some ifaces) none).1
          ≡ has_global_ipv6 (some ifaces) none)
unfolding has_global_ipv6 detect_global_ipv6
has_global_ipv6_iff ifaces later = (any_interface_iff ifaces, refl)
