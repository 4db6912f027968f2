-- ===== src/Concert/Waits.antt =====
-- What the waits of wowAB/WowConcert.H have received when they end.
use wow_so_distributed.Base.{
  ℕ, zero, suc, ◌+◌, ◌≡◌, ℤ, pos, none, some, List, [], ◌∷◌, length, refl, arith, int_eq,
}
use wow_so_distributed.Base.Dict
use wow_so_distributed.Base.Dict.{Dict}
use wow_so_distributed.Concert.{Datagram, Contacts, wait_registrations}

length-put :
    (j : ℤ) (a : ℕ) (c : Contacts)
    → length (Dict.put j a c) ≡ (elim (Dict.get j c) [ none ↦ suc (length c) | some _ ↦ length c ])
unfolding Dict.put Dict.get
length-put j a [] = refl
length-put j a ((i, b) ∷ c) = ground (arith, length-put j a c)

-- When waitRegistrations ends, it has entered exactly as many new origins as it waited for.
pub wait_registrations_counted :
    (ds : List Datagram) (pending : ℕ) (c c' : Contacts) (rest : List Datagram)
    → wait_registrations ds pending c ≡ some (c', rest)
    → length c' ≡ length c + pending
unfolding wait_registrations
wait_registrations_counted ds zero c c' rest h = let e : c ≡ c' = cc in rw (← e) (omega arith)
wait_registrations_counted [] (suc pending) c c' rest h = cc
wait_registrations_counted (d ∷ ds) (suc pending) c c' rest h =
    let put = Dict.put (pos d.origin) d.address c in
    ground (
      arith,
      h,
      length-put (pos d.origin) d.address c,
      wait_registrations_counted ds (suc pending) put c' rest,
      wait_registrations_counted ds pending put c' rest,
      wait_registrations_counted ds (suc pending) c c' rest,
    )
