-- ===== src/Driver/Handles.antt =====
-- The loops of src/kernel/linux/sharedgl.c that release something for each BAR.
use sharedgl.Prelude.{
  ℕ, zero, suc, ◌+◌, ◌≤◌, ◌<◌, ◌≡◌, ap, ◌∙◌, Bool, false, not, ◌==◌, if◌then◌else◌, arith,
}
use sharedgl.Driver.{Held, release, release_below, release_from}

abbrev pub has_len : (ℕ → ℕ) → ℕ → Bool
has_len len i = not (len i == 0)

-- What is held from BAR `i` to before BAR `j` is what has a length; nothing else is held.
pub record Exact (len : ℕ → ℕ) (i j : ℕ) (h : Held) : Type 0 where
  pub below : (k : ℕ) → k < i → h.has k ≡ false
  pub inside : (k : ℕ) → i ≤ k → k < j → h.has k ≡ has_len len k
  pub above : (k : ℕ) → j ≤ k → h.has k ≡ false
  pub sound : h.fault ≡ false

-- Nothing is held, and nothing was released that was not held.
pub record Empty (h : Held) : Type 0 where
  pub none_held : (k : ℕ) → h.has k ≡ false
  pub sound : h.fault ≡ false

Exact-Empty : (len : ℕ → ℕ) (i : ℕ) (h : Held) → Exact len i i h → Empty h
Exact-Empty len i h e = record {
  none_held = λ k. ground (arith, e.below k, e.above k);
  sound = e.sound;
}

pub Empty-Exact : (len : ℕ → ℕ) (i : ℕ) (h : Held) → Empty h → Exact len i i h
Empty-Exact len i h e = record {
  below = λ k q. e.none_held k;
  inside = λ k q t. absurd (omega arith);
  above = λ k q. e.none_held k;
  sound = e.sound;
}

pub Exact-cast :
    (len len' : ℕ → ℕ) (i j : ℕ) (h : Held)
    → len ≡ len'
    → i ≡ j
    → Exact len 0 i h
    → Exact len' 0 j h
Exact-cast len len' i j h p q e = record {
  below = λ k t. absurd (omega arith);
  inside = λ k t l. e.inside k t (omega arith) ∙ ap (λ f. has_len f k) p;
  above = λ k t. e.above k (omega arith);
  sound = e.sound;
}

abbrev drop_one : (ℕ → ℕ) → ℕ → Held → Held
drop_one len i h = if len i == 0 then h else release i h

drop_last :
    (len : ℕ → ℕ) (i j : ℕ) (h : Held)
    → i ≤ j
    → Exact len i (suc j) h
    → Exact len i j (drop_one len j h)
drop_last len i j h l e = record {
  below = λ k q. ground (arith, e.below k q);
  inside = λ k q t. ground (arith, e.inside k q (omega arith));
  above = λ k q. ground (arith, e.above k, e.inside k (omega arith));
  sound = ground (arith, e.sound, e.inside j l (omega arith));
}

drop_first :
    (len : ℕ → ℕ) (i j : ℕ) (h : Held)
    → i < j
    → Exact len i j h
    → Exact len (i + 1) j (drop_one len i h)
drop_first len i j h l e = record {
  below = λ k q. ground (arith, e.below k, e.inside k);
  inside = λ k q t. ground (arith, e.inside k (omega arith) t);
  above = λ k q. ground (arith, e.above k q);
  sound = ground (arith, e.sound, e.inside i (omega arith) l);
}

pub release_below-Empty :
    (len : ℕ → ℕ) (i : ℕ) (h : Held) → Exact len 0 i h → Empty (release_below len i h)
unfolding release_below
release_below-Empty len zero h e = Exact-Empty len 0 h e
release_below-Empty len (suc i) h e =
    release_below-Empty len i (drop_one len i h) (drop_last len 0 i h (omega arith) e)

pub release_from-Empty :
    (len : ℕ → ℕ) (n i j : ℕ) (h : Held)
    → i + n ≡ j
    → Exact len i j h
    → Empty (release_from len n i h)
unfolding release_from
release_from-Empty len zero i j h q e =
    let t : i ≡ j = omega arith in
    Exact-Empty len i h (record {
      below = e.below;
      inside = λ k a b. absurd (omega arith);
      above = λ k a. e.above k (omega arith);
      sound = e.sound;
    })
release_from-Empty len (suc n) i j h q e =
    release_from-Empty len n (i + 1) j (drop_one len i h) (omega arith)
      (drop_first len i j h (omega arith) e)
