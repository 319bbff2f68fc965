-- ===== src/Tinq/Site/Forwards.antt =====
-- The sockets that hostBinds lists are those that QEMU is told to bind, and checkForwardCollisions
-- accepts two machines exactly when all of their sockets can be bound together.
use Prim.Native.String.{◌++◌ as str_append}
use talos_in_qemu.Prelude.{
  ℕ, zero, suc, ◌<◌, ◌≡◌, refl, sym, ap, ◌∙◌, ◌↔◌, ◌⊎◌, inl, inr, String, false, some, List, [],
  ◌∷◌, ◌++◌, All, arith, eq_iff, str_eq, Bool-cases, ◌||◌, ok, seq-eq-ok,
}
use talos_in_qemu.Manifest.{ℤ, pos, negsuc, Value, Table, field, Machine, str, to_int}
use talos_in_qemu.Tinq.Endpoints.{as_table, host_forwards}
use talos_in_qemu.Tinq.Site.{
  HostBind, positive_ports, forward_binds, binds_in, host_binds, forward_text, netdev_from,
  user_netdev, collides, check_bind, check_binds,
}

-- A socket and the port of the guest behind it.
abbrev pub Forward : Type 0
Forward = HostBind × ℕ

abbrev pub render : (String → String → ℕ → ℕ → String) → String → List Forward → String
render hostfwd netdev [] = netdev
render hostfwd netdev ((b, gp) ∷ fs) =
    render hostfwd (str_append netdev (hostfwd b.proto b.addr b.port gp)) fs

render-append :
    (f : String → String → ℕ → ℕ → String) (s : String) (xs ys : List Forward)
    → render f s (xs ++ ys) ≡ render f (render f s xs) ys
render-append f s [] ys = refl
render-append f s ((b, gp) ∷ xs) ys =
    render-append f (str_append s (f b.proto b.addr b.port gp)) xs ys

abbrev pub binds : List Forward → List HostBind
binds [] = []
binds ((b, gp) ∷ fs) = b ∷ binds fs

binds-append : (xs ys : List Forward) → binds (xs ++ ys) ≡ binds xs ++ binds ys
binds-append [] ys = refl
binds-append ((b, gp) ∷ xs) ys = ap (λ l. b ∷ l) (binds-append xs ys)

abbrev pub Given : Forward → Type 0
Given (b, gp) = (0 < b.port) × (0 < gp)

Given-append : (xs ys : List Forward) → All Given xs → All Given ys → All Given (xs ++ ys)
Given-append [] ys h k = k
Given-append (x ∷ xs) ys (h, hs) k = (h, Given-append xs ys hs k)

-- An expansion of the forwards: its sockets, and what it adds to the argument.
abbrev Expands : (String → String → ℕ → ℕ → String) → String → List HostBind → String → Type 0
Expands f s bs after =
    (fs : List Forward) × (binds fs ≡ bs) × (render f s fs ≡ after) × All Given fs

module _ (lower : String → String) (hostfwd : String → String → ℕ → ℕ → String) where
  one_forward :
      (h : Table) (hp gp : ℕ) (s : String)
      → Expands hostfwd s
          (forward_binds lower h (some (suc hp, suc gp)))
          (forward_text lower hostfwd h (some (suc hp, suc gp)) s)
  one_forward h hp gp s =
      elim (Bool-cases (str_eq (lower (str (field "protocol" h) "tcp")) "udp")) [
        | inl e ↦ (udp ∷ [], rw e refl, rw e refl, (given, tt))
        | inr e ↦
            elim (Bool-cases (
              str_eq (lower (str (field "protocol" h) "tcp")) "both"
              || str_eq (lower (str (field "protocol" h) "tcp")) "tcp+udp")) [
                | inl e' ↦ (tcp ∷ udp ∷ [], rw (e, e') refl, rw (e, e') refl, (given, (given, tt)))
                | inr e' ↦ (tcp ∷ [], rw (e, e') refl, rw (e, e') refl, (given, tt))
              ]
      ]
    where
      udp : Forward
      udp = (
        record { proto = "udp"; addr = str (field "hostAddr" h) "127.0.0.1"; port = suc hp },
        suc gp,
      )

      tcp : Forward
      tcp = (
        record { proto = "tcp"; addr = str (field "hostAddr" h) "127.0.0.1"; port = suc hp },
        suc gp,
      )

      given : (0 < suc hp) × (0 < suc gp)
      given = (omega arith, omega arith)

  one :
      (h : Table) (hp gp : ℤ) (s : String)
      → Expands hostfwd s
          (forward_binds lower h (positive_ports hp gp))
          (forward_text lower hostfwd h (positive_ports hp gp) s)
  one h (pos zero) gp s = ([], refl, refl, tt)
  one h (pos (suc hp)) (pos zero) s = ([], refl, refl, tt)
  one h (pos (suc hp)) (pos (suc gp)) s = one_forward h hp gp s
  one h (pos (suc hp)) (negsuc gp) s = ([], refl, refl, tt)
  one h (negsuc hp) gp s = ([], refl, refl, tt)

  joined :
      (rest : List Value) (s : String) (bs : List HostBind) (after : String)
      → Expands hostfwd s bs after
      → Expands hostfwd after (binds_in lower rest) (netdev_from lower hostfwd after rest)
      → Expands hostfwd s (bs ++ binds_in lower rest) (netdev_from lower hostfwd after rest)
  joined rest s bs after (fs, same, text, given) (gs, same', text', given') = (
    fs ++ gs,
    binds-append fs gs ∙ rw (same, same') refl,
    render-append hostfwd s fs gs ∙ (rw text text'),
    Given-append fs gs given given',
  )

  expansion :
      (hfs : List Value) (s : String)
      → Expands hostfwd s (binds_in lower hfs) (netdev_from lower hostfwd s hfs)
  unfolding binds_in netdev_from
  expansion [] s = ([], refl, refl, tt)
  expansion (hf ∷ rest) s =
      let ports =
        positive_ports (to_int (field "hostPort" (as_table hf)))
          (to_int (field "guestPort" (as_table hf))) in
      let after = forward_text lower hostfwd (as_table hf) ports s in
      joined rest s (forward_binds lower (as_table hf) ports) after
        (one (as_table hf) (to_int (field "hostPort" (as_table hf)))
          (to_int (field "guestPort" (as_table hf))) s)
        (expansion rest after)

  -- The argument of the first NIC lists one forward for each socket of hostBinds, in its order, each
  -- to a port of the guest, and nothing else.
  pub user_netdev_lem :
      (m : Machine)
      → (fs : List Forward) × (binds fs ≡ host_binds lower m)
        × (user_netdev lower hostfwd m ≡ render hostfwd "user,id=n0" fs)
        × All Given fs
  unfolding host_binds user_netdev
  user_netdev_lem m =
      let (fs, same, text, given) = expansion (host_forwards m) "user,id=n0" in
      (fs, same, sym text, given)

-- Two sockets that cannot both be bound.
abbrev pub Clash : HostBind → HostBind → Type 0
Clash a b =
    (a.proto ≡ b.proto)
    × (a.port ≡ b.port)
    × ((a.addr ≡ b.addr) ⊎ ((a.addr ≡ "0.0.0.0") ⊎ (b.addr ≡ "0.0.0.0")))

abbrev pub Apart : List HostBind → List HostBind → Type 0
Apart l bs = All (λ a. All (λ b. ¬ Clash a b) bs) l

collides_iff : (a b : HostBind) → (collides a b ≡ false) ↔ (¬ Clash a b)
unfolding collides
collides_iff a b = ground (
  arith,
  eq_iff a.proto b.proto,
  eq_iff a.addr b.addr,
  eq_iff a.addr "0.0.0.0",
  eq_iff b.addr "0.0.0.0",
)

check_bind_iff :
    (a : HostBind) (bs : List HostBind) → (check_bind a bs ≡ ok tt) ↔ All (λ b. ¬ Clash a b) bs
unfolding check_bind
check_bind_iff a [] = (λ _. tt, λ _. refl)
check_bind_iff a (b ∷ bs) =
    let (to, from) = check_bind_iff a bs in
    let (clear, free) = collides_iff a b in
    elim (Bool-cases (collides a b)) [
      | inl e ↦ (λ h. absurd (ground arith), λ (g, _). absurd (ground (arith, free g)))
      | inr e ↦ (λ h. (clear e, to (ground arith)), λ (g, gs). ground (arith, from gs))
    ]

pub check_binds_iff : (l bs : List HostBind) → (check_binds l bs ≡ ok tt) ↔ Apart l bs
unfolding check_binds
check_binds_iff [] bs = (λ _. tt, λ _. refl)
check_binds_iff (a ∷ l) bs =
    let (to, from) = check_binds_iff l bs in
    let (clear, free) = check_bind_iff a bs in
    (
      λ h. let (h₁, h₂) = seq-eq-ok (check_bind a bs) (check_binds l bs) h in (clear h₁, to h₂),
      λ (g, gs). rw (free g, from gs),
    )
