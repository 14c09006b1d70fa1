-- ===== src/Driver/Bars.antt =====
-- The loop over `ioremap` of src/kernel/linux/sharedgl.c.
use sharedgl.Prelude.{
  ℕ, zero, suc, ◌+◌, ◌≤◌, ◌<◌, ◌≡◌, ◌≢◌, ◌⊎◌, inl, inr, refl, ◌∙◌, not, true, ◌==◌, if◌then◌else◌,
  arith, Bool-cases,
}
use sharedgl.Driver.{
  Remapped, err_ptr, null, mapped, Kernel, Held, acquire, set_len, Acquired, map_bars,
}
use sharedgl.Driver.Handles.{Exact}
use sharedgl.Driver.Nodes.{first, Collected}

-- `pci_select_bars` gives only BARs that are there, which are not empty, and an error pointer holds an
-- error number.
pub record Sane (k : Kernel) : Type 0 where
  pub sized : (i : ℕ) → k.mem_bars i ≡ true → k.pci_resource_len i ≢ 0
  pub errors : (i e : ℕ) → k.ioremap i ≡ err_ptr e → e ≢ 0

-- A null pointer is no error to the driver.
abbrev remap_error : Remapped → ℕ
remap_error (err_ptr e) = e
remap_error null = 0
remap_error mapped = 0

-- The error that the driver finds for one BAR
abbrev bar_error : Kernel → ℕ → ℕ
bar_error k i = if k.mem_bars i then remap_error (k.ioremap i) else 0

-- The first error of `n` BARs.
unfoldable pub bars_error : Kernel → ℕ → ℕ → ℕ
bars_error k zero i = 0
bars_error k (suc n) i = first (bar_error k i) (bars_error k n (i + 1))

-- The length that the driver keeps for a BAR.
abbrev pub bar_len : Kernel → ℕ → ℕ
bar_len k i = if k.mem_bars i then k.pci_resource_len i else 0

Remapped-cases : (r : Remapped) → ((e : ℕ) × (r ≡ err_ptr e)) ⊎ (r ≡ null) ⊎ (r ≡ mapped)
Remapped-cases (err_ptr e) = inl (e, refl)
Remapped-cases null = inr (inl refl)
Remapped-cases mapped = inr (inr refl)

-- One round that goes on: BAR `i` gets the length `w`, and is held as it has one.
one_bar :
    (len : ℕ → ℕ) (i w : ℕ) (h h' : Held)
    → Exact len 0 i h
    → h'.fault ≡ h.fault
    → ((j : ℕ) → j ≢ i → h'.has j ≡ h.has j)
    → h'.has i ≡ not (w == 0)
    → Exact (set_len len i w) 0 (i + 1) h'
one_bar len i w h h' e f s t = record {
  below = λ k q. absurd (omega arith);
  inside = λ k q l. ground (arith, s k, t, e.inside k q);
  above = λ k q. ground (arith, s k, e.above k (omega arith));
  sound = f ∙ e.sound;
}

-- What the loop leaves: also the lengths, where it ran to its end.
pub record BarsMapped (k : Kernel) (n i e : ℕ) (len : ℕ → ℕ) (r : Acquired) : Type 0 where
  pub collected : Collected n i e r
  pub before : (j : ℕ) → j < i → r.len j ≡ len j
  pub lens : r.err ≡ 0 → (j : ℕ) → i ≤ j → j < i + n → r.len j ≡ bar_len k j

BarsMapped-next :
    (k : Kernel) (n i e w : ℕ) (len : ℕ → ℕ) (r : Acquired)
    → bar_len k i ≡ w
    → BarsMapped k n (i + 1) e (set_len len i w) r
    → BarsMapped k (suc n) i e len r
BarsMapped-next k n i e w len r v m = record {
  collected = record {
    err = m.collected.err;
    exact = m.collected.exact;
    complete = λ q. m.collected.complete q ∙ omega arith;
  };
  before = λ j q. ground (arith, m.before j (omega arith));
  lens = λ q j l t. ground (arith, v, m.before j, m.lens q j);
}

stopped :
    (k : Kernel) (n i e : ℕ) (len : ℕ → ℕ) (h : Held)
    → e ≢ 0
    → Exact len 0 i h
    → BarsMapped k
        (suc n)
        i
        (first e (bars_error k n (i + 1)))
        len
        (record { err = e; at = i; len = len; held = h })
stopped k n i e len h q x = record {
  collected = record { err = ground (arith, q); exact = x; complete = λ t. absurd (q t) };
  before = λ j t. refl;
  lens = λ t j l s. absurd (q t);
}

-- Whatever call of `ioremap` gives an error pointer, the loop holds the mappings before it.
pub map_bars-BarsMapped :
    (k : Kernel) (n i : ℕ) (len : ℕ → ℕ) (h : Held)
    → Sane k
    → Exact len 0 i h
    → BarsMapped k n i (bars_error k n i) len (map_bars k n i len h)
unfolding map_bars bars_error
map_bars-BarsMapped k zero i len h p e = record {
  collected = record { err = refl; exact = e; complete = λ q. omega arith };
  before = λ j q. refl;
  lens = λ q j l t. absurd (omega arith);
}
map_bars-BarsMapped k (suc n) i len h p e = elim (Bool-cases (k.mem_bars i)) [
  | inr z ↦
      let v : bar_len k i ≡ 0 = ground (arith, z) in
      let x = one_bar len i 0 h h e refl (λ j q. refl) (e.above i (omega arith)) in
      let m =
        BarsMapped-next k n i _ 0 len _ v
          (map_bars-BarsMapped k n (i + 1) (set_len len i 0) h p x) in
      rw z m
  | inl z ↦
      let w = k.pci_resource_len i in
      let v : bar_len k i ≡ w = ground (arith, z) in
      elim (Remapped-cases (k.ioremap i)) [
        | inl (c, r) ↦ rw (z, r) (stopped k n i c len h (p.errors i c r) e)
        | inr (inl r) ↦
            let x =
              one_bar len i w h (acquire i h) e refl (λ j q. ground (arith, q))
                (ground (arith, p.sized i z)) in
            let m =
              BarsMapped-next k n i _ w len _ v
                (map_bars-BarsMapped k n (i + 1) (set_len len i w) (acquire i h) p x) in
            rw (z, r) m
        | inr (inr r) ↦
            let x =
              one_bar len i w h (acquire i h) e refl (λ j q. ground (arith, q))
                (ground (arith, p.sized i z)) in
            let m =
              BarsMapped-next k n i _ w len _ v
                (map_bars-BarsMapped k n (i + 1) (set_len len i w) (acquire i h) p x) in
            rw (z, r) m
      ]
]
