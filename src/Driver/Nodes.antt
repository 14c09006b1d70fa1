-- ===== src/Driver/Nodes.antt =====
-- The loop over `device_create` of src/kernel/linux/sharedgl.c.
use sharedgl.Prelude.{
  ℕ, zero, suc, ◌+◌, ◌≤◌, ◌<◌, ◌≡◌, ◌≢◌, inl, inr, refl, ◌∙◌, ◌==◌, if◌then◌else◌, arith,
  Bool-cases,
}
use sharedgl.Driver.{Kernel, Held, acquire, Acquired, create_nodes}
use sharedgl.Driver.Handles.{Exact}

-- The first of two results that is an error.
abbrev pub first : ℕ → ℕ → ℕ
first a b = if a == 0 then b else a

abbrev node_error : Kernel → (ℕ → ℕ) → ℕ → ℕ
node_error k len i = if len i == 0 then 0 else k.device_create i

-- The error of the first of `n` calls of `device_create` that fails.
unfoldable pub nodes_error : Kernel → ℕ → ℕ → (ℕ → ℕ) → ℕ
nodes_error k zero i len = 0
nodes_error k (suc n) i len = first (node_error k len i) (nodes_error k n (i + 1) len)

-- A loop from BAR `i` with `n` rounds; `len` is what it found.
pub record Collected (n i e : ℕ) (r : Acquired) : Type 0 where
  pub err : r.err ≡ e
  pub exact : Exact r.len 0 r.at r.held
  pub complete : r.err ≡ 0 → r.at ≡ i + n

take_next :
    (len : ℕ → ℕ) (i : ℕ) (h : Held)
    → len i ≢ 0
    → Exact len 0 i h
    → Exact len 0 (i + 1) (acquire i h)
take_next len i h q e = record {
  below = λ k t. absurd (omega arith);
  inside = λ k t l. ground (arith, e.inside k t, q);
  above = λ k t. ground (arith, e.above k (omega arith));
  sound = e.sound;
}

skip_next : (len : ℕ → ℕ) (i : ℕ) (h : Held) → len i ≡ 0 → Exact len 0 i h → Exact len 0 (i + 1) h
skip_next len i h q e = record {
  below = λ k t. absurd (omega arith);
  inside = λ k t l. ground (arith, e.inside k t, e.above k, q);
  above = λ k t. e.above k (omega arith);
  sound = e.sound;
}

Collected-next : (n i e : ℕ) (r : Acquired) → Collected n (i + 1) e r → Collected (suc n) i e r
Collected-next n i e r c = record {
  err = c.err;
  exact = c.exact;
  complete = λ q. c.complete q ∙ omega arith;
}

-- Whatever call of `device_create` fails, the loop holds the nodes before it.
pub create_nodes-Collected :
    (k : Kernel) (n i : ℕ) (len : ℕ → ℕ) (h : Held)
    → Exact len 0 i h
    → Collected n i (nodes_error k n i len) (create_nodes k n i len h)
unfolding create_nodes nodes_error
create_nodes-Collected k zero i len h e = record {
  err = refl;
  exact = e;
  complete = λ q. omega arith;
}
create_nodes-Collected k (suc n) i len h e = elim (Bool-cases (len i == 0)) [
  | inl z ↦ rw z (
      Collected-next n i _ _
        (create_nodes-Collected k n (i + 1) len h (skip_next len i h (ground (arith, z)) e)))
  | inr z ↦ rw z (elim (Bool-cases (k.device_create i == 0)) [
    | inl d ↦ rw d (
        Collected-next n i _ _ (
          create_nodes-Collected k n (i + 1) len (acquire i h)
            (take_next len i h (ground (arith, z)) e)))
    | inr d ↦ rw d (record { err = refl; exact = e; complete = λ q. absurd (ground (arith, d, q)) })
  ])
]

pub create_nodes-len :
    (k : Kernel) (n i : ℕ) (len : ℕ → ℕ) (h : Held) → (create_nodes k n i len h).len ≡ len
unfolding create_nodes
create_nodes-len k zero i len h = refl
create_nodes-len k (suc n) i len h =
    ground
      (arith, create_nodes-len k n (i + 1) len h, create_nodes-len k n (i + 1) len (acquire i h))

pub nodes_error-same :
    (k : Kernel) (n i : ℕ) (len len' : ℕ → ℕ)
    → ((j : ℕ) → i ≤ j → j < i + n → len j ≡ len' j)
    → nodes_error k n i len ≡ nodes_error k n i len'
unfolding nodes_error
nodes_error-same k zero i len len' h = refl
nodes_error-same k (suc n) i len len' h =
    let rest = nodes_error-same k n (i + 1) len len' (λ j l q. h j (omega arith) (omega arith)) in
    rw (h i (omega arith) (omega arith), rest) refl
