-- ===== src/Hid/Open.antt =====
-- cloudGame/include/libGetrtpcmd_copy.cpp: `DeviceOpen`, which searches the HID interfaces of the machine for
-- the virtual device, and `DeviceClose`. The operating system's interfaces and their handles are
-- parameters.
use push_streamer_client.Prelude.{
  ℕ, zero, suc, ◌+◌, ◌<◌, ◌≡◌, ◌⊎◌, inl, inr, refl, ◌∙◌, sym, ap, ap₂, subst, Bool, true, false,
  ◌&&◌, Option, none, some, List, [], ◌∷◌, arith, ◌==◌, if◌then◌else◌, Bool-cases,
}

-- What the search meets at an index: no interface; no memory for its path; no path; an interface that
-- cannot be opened; one that is opened, with its handle, vendor and product.
pub data Interface : Type 0 where
  absent no_memory no_path closed : Interface
  opens : ℕ → ℕ → ℕ → Interface

-- The handle of the device, `none` for INVALID_HANDLE_VALUE, and the handles that are open.
pub record Handles : Type 0 where
  pub handle : Option ℕ
  pub live : List ℕ

unfoldable pub without : ℕ → List ℕ → List ℕ
without h [] = []
without h (k ∷ ks) = if h == k then ks else k ∷ without h ks

-- `DeviceClose`: `CloseHandle`, and the handle is reset.
unfoldable pub device_close_at : Option ℕ → List ℕ → Handles
device_close_at none live = record { handle = none; live = live }
device_close_at (some h) live = record { handle = none; live = without h live }

unfoldable pub device_close : Handles → Handles
device_close s = device_close_at s.handle s.live

-- `CreateFile` of an interface.
abbrev pub opened : Handles → ℕ → Handles
opened s h = record { handle = some h; live = h ∷ s.live }

-- A round of the loop of `DeviceOpen`, with the rest of the loop.
unfoldable pub look_at : ℕ → ℕ → Interface → (Handles → Handles × Bool) → Handles → Handles × Bool
look_at vid pid absent rest s = rest s
look_at vid pid no_memory rest s = rest s
look_at vid pid no_path rest s = (s, false)
look_at vid pid closed rest s = rest s
look_at vid pid (opens h v p) rest s =
    if v == vid && p == pid then (opened s h, true) else rest (device_close (opened s h))

-- The loop of `DeviceOpen` from an index, for some more rounds.
unfoldable pub search : (ℕ → Interface) → ℕ → ℕ → ℕ → ℕ → Handles → Handles × Bool
search at vid pid zero i s = (s, false)
search at vid pid (suc n) i s = look_at vid pid (at i) (search at vid pid n (suc i)) s

-- `DeviceOpen`, with its result.
unfoldable pub device_open : (ℕ → Interface) → ℕ → ℕ → Handles → Handles × Bool
device_open at vid pid s = search at vid pid 1024 0 (device_close s)

-- The device was found: its handle is the only one that is new.
abbrev pub Found : (ℕ → Interface) → ℕ → ℕ → ℕ → Handles → Handles × Bool → Type 0
Found at vid pid end s r =
    (i : ℕ) × (h : ℕ) × (i < end) × (at i ≡ opens h vid pid) × (r ≡ (opened s h, true))

-- No handle of the device, and some other handles.
abbrev pub no_device : List ℕ → Handles
no_device live = record { handle = none; live = live }

closed_again : (live : List ℕ) (h : ℕ) → device_close (opened (no_device live) h) ≡ no_device live
unfolding device_close device_close_at without
closed_again live h = ap no_device (ground arith)

both : (v vid p pid : ℕ) → (v == vid && p == pid) ≡ true → (v ≡ vid) × (p ≡ pid)
both v vid p pid h = ground arith

Found-later :
    (at : ℕ → Interface) (vid pid i n : ℕ) (s : Handles) (r : Handles × Bool)
    → Found at vid pid (n + suc i) s r ⊎ (r ≡ (s, false))
    → Found at vid pid (suc n + i) s r ⊎ (r ≡ (s, false))
Found-later at vid pid i n s r (inl (j, h, b, e, q)) = inl (j, h, omega (arith, b), e, q)
Found-later at vid pid i n s r (inr q) = inr q

round-Found :
    (at : ℕ → Interface) (vid pid n i : ℕ) (live : List ℕ) (x : Interface)
    (rest : Handles → Handles × Bool)
    → at i ≡ x
    → Found at vid pid (suc n + i) (no_device live) (rest (no_device live))
      ⊎ (rest (no_device live) ≡ (no_device live, false))
    → Found at vid pid (suc n + i) (no_device live) (look_at vid pid x rest (no_device live))
      ⊎ (look_at vid pid x rest (no_device live) ≡ (no_device live, false))
unfolding look_at
round-Found at vid pid n i live absent rest e h = h
round-Found at vid pid n i live no_memory rest e h = h
round-Found at vid pid n i live no_path rest e h = inr refl
round-Found at vid pid n i live closed rest e h = h
round-Found at vid pid n i live (opens k v p) rest e h = elim (Bool-cases (v == vid && p == pid)) [
  | inl q ↦
      let (a, b) = both v vid p pid q in rw q (inl (i, k, omega arith, e ∙ ap₂ (opens k) a b, refl))
  | inr q ↦
      let s = no_device live in
      rw q (
        subst (λ x. Found at vid pid (suc n + i) s (rest x) ⊎ (rest x ≡ (s, false)))
          (sym (closed_again live k)) h)
]

search-Found :
    (at : ℕ → Interface) (vid pid n i : ℕ) (live : List ℕ)
    → let r = search at vid pid n i (no_device live) in
      Found at vid pid (n + i) (no_device live) r ⊎ (r ≡ (no_device live, false))
unfolding search
search-Found at vid pid zero i live = inr refl
search-Found at vid pid (suc n) i live =
    round-Found at vid pid n i live (at i) (search at vid pid n (suc i)) refl
      (Found-later at vid pid i n (no_device live) _ (search-Found at vid pid n (suc i) live))

close-no_device :
    (o : Option ℕ) (live : List ℕ)
    → device_close_at o live ≡ no_device (device_close_at o live).live
unfolding device_close_at
close-no_device none live = refl
close-no_device (some h) live = refl

-- `DeviceOpen` ends in one of two ways. It was successful: then the handle is that of an interface below
-- 1024 with the vendor and the product. Or it was not: then there is no handle. In both cases the
-- handle from before is closed, and no other handle that the search has opened is left open.
pub device_open-Found :
    (at : ℕ → Interface) (vid pid : ℕ) (s : Handles)
    → let s' = no_device (device_close s).live in
      let r = device_open at vid pid s in Found at vid pid 1024 s' r ⊎ (r ≡ (s', false))
unfolding device_open device_close
device_open-Found at vid pid s =
    let s' = no_device (device_close s).live in
    subst
      (λ x.
        Found at vid pid 1024 s' (search at vid pid 1024 0 x)
        ⊎ (search at vid pid 1024 0 x ≡ (s', false)))
      (sym (close-no_device s.handle s.live)) (search-Found at vid pid 1024 0 (device_close s).live)
