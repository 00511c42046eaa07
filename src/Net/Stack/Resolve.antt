-- ===== src/Net/Stack/Resolve.antt =====
-- `resolve` of net/net.c: a datagram goes to the hardware address that the cache holds for its hop.
use pumpkin_os.Prelude.{
  ℕ, zero, suc, ◌≡◌, refl, subst, ◌&&◌, ◌==◌, ==→≡, Bool, true, false, if_cases, ltb, ◌/◌,
}
use pumpkin_os.Prelude.{List, Option, none, some}
use pumpkin_os.Net.State.{Nic, Net, ticks, after_round, wait_loop, hz_of, minus32}
use pumpkin_os.Net.State.Wait.{wait_loop-answers}
use pumpkin_os.Net.Stack.{arp_request, cached, resolve_tries, resolve}

-- An address from `resolve` is the one that the cache holds afterwards.
abbrev pub Cached : {S : Type 0} → ℕ → Option (List ℕ) × Net S → Type 0
Cached ip (none, t) = Unit
Cached ip (some mac, t) = (t.arp_valid ≡ true) × (t.arp_ip ≡ ip) × (mac ≡ t.arp_mac)

cached-Cached : {S : Type 0} (ip : ℕ) (s : Net S) → Cached ip (cached ip s, s)
cached-Cached ip s =
    if_cases (λ o. Cached ip (o, s)) (s.arp_valid && (s.arp_ip == ip)) (some s.arp_mac) none
      (λ e. let (valid, same) = both s.arp_valid (s.arp_ip == ip) e in (valid, ==→≡ _ _ same, refl))
      (λ _. tt)
  where
    both : (b c : Bool) → (b && c) ≡ true → (b ≡ true) × (c ≡ true)
    both true c e = (refl, e)
    both false c e = absurd (cc e)

after_round-Cached :
    {S : Type 0} (ip : ℕ) (x y : Option (List ℕ) × Net S)
    → Cached ip x
    → Cached ip y
    → Cached ip (after_round x y)
after_round-Cached ip (none, s) y p q = q
after_round-Cached ip (some mac, s) y p q = p

answer-Cached :
    {S : Type 0} (ip : ℕ) (x : Option (List ℕ) × Net S)
    → ((mac : List ℕ) (t : Net S) → x ≡ (some mac, t) → Cached ip (some mac, t))
    → Cached ip x
answer-Cached ip (none, t) h = tt
answer-Cached ip (some mac, t) h = h mac t refl

module _ {S : Type 0} (nic : Nic S) (poll : Net S → Net S) (fuel : ℕ) where
  resolve_tries-Cached :
      (hz ip attempts : ℕ) (s : Net S) → Cached ip (resolve_tries nic poll fuel hz ip attempts s)
  unfolding resolve_tries
  resolve_tries-Cached hz ip zero s = tt
  resolve_tries-Cached hz ip (suc attempts) s =
      let (start, s1) = ticks nic (arp_request nic ip (record s { arp_valid = false })) in
      let more : ℕ → Bool = λ t. ltb (minus32 t start) (hz / 2) in
      let body : Net S → Option (List ℕ) × Net S = λ u. (cached ip (poll u), poll u) in
      let try = wait_loop nic more body fuel s1 in
      after_round-Cached ip try (resolve_tries nic poll fuel hz ip attempts try.1)
        (answer-Cached ip try (λ mac t e.
          let (u, q) = wait_loop-answers nic more body fuel s1 t mac e in
          subst (Cached ip) q (cached-Cached ip (poll u))))
        (resolve_tries-Cached hz ip attempts try.1)

  -- Where `resolve` gives a hardware address, whatever frames came meanwhile, the cache then holds
  -- that address for the IP address that was asked for.
  pub resolve-Cached : (ip : ℕ) (s : Net S) → Cached ip (resolve nic poll fuel ip s)
  unfolding resolve
  resolve-Cached ip s =
      after_round-Cached ip (cached ip s, s) (resolve_tries nic poll fuel (hz_of nic s) ip 4 s)
        (cached-Cached ip s) (resolve_tries-Cached (hz_of nic s) ip 4 s)
