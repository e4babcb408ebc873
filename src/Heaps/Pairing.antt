-- ===== src/Heaps/Pairing.antt =====
-- What `operator new` of src/boot.cpp gives for an alignment, `operator delete` takes back.
use guest_tests.Base.{
  ℕ, ◌^◌, ◌<◌, ◌≡◌, refl, sym, ap, subst, ◌∙◌, arith, false, leb, ◌==◌, ==_self, Bool-cases,
  Option-cases, some_inj, inl, inr, Option, none, some, List, ◌>>=◌,
}
use guest_tests.Math.{order_max}
use guest_tests.Buddy.{Buddy}
use guest_tests.Buddy.Client.{alloc-Granted}
use guest_tests.SimpleBuddy as Simple
use guest_tests.SimpleBuddy.{SimpleBuddy, claim_order, lookup, erase}
use guest_tests.SimpleBuddy.Held.{total, IsSimple, Kept, Answer, refused, given}
use guest_tests.SimpleBuddy.Client.{Fresh, Outcome, served, with_claim, alloc-Outcome, free-Kept}
use guest_tests.Heaps.{
  FirstFit, Heaps, aligned_order, new_from, claim_space, new_block, new_aligned, delete_aligned,
}

-- A block that was handed out can be given back.
record Frees (s : SimpleBuddy) (p : ℕ) (s2 : SimpleBuddy) : Type 0 where
  freed : SimpleBuddy
  run : Simple.free p s2 ≡ some freed
  valid : IsSimple freed
  back : freed.alloc_map ≡ s.alloc_map
  same : (x : ℕ) → total freed x ≡ total s2 x

answered :
    {order p : ℕ} {m m2 : List (ℕ × ℕ)} {r : Option ℕ}
    → Answer order m r m2
    → r ≡ some p
    → lookup m2 p ≡ some order
unfolding lookup
answered refused e = cc
answered {order} {p} (given {a} block) e = rw (ap (λ k. k == p) (some_inj e) ∙ ==_self p) refl

-- The map without the new address is the map as it was.
erased_back :
    {order p : ℕ} {m m2 : List (ℕ × ℕ)} {r : Option ℕ}
    → Answer order m r m2
    → r ≡ some p
    → erase m2 p ≡ m
unfolding erase
erased_back refused e = cc
erased_back {order} {p} (given {a} block) e = rw (ap (λ k. k == p) (some_inj e) ∙ ==_self p) refl

Kept-Frees :
    {order p : ℕ} {s s2 : SimpleBuddy} {extra : ℕ → ℕ}
    → Kept order s extra (some p) s2
    → Frees s p s2
Kept-Frees {order} {p} {s} {s2} k =
    let (freed, run, valid, erased, same) = free-Kept order s2 k.valid p (answered k.mapped refl) in
    record {
      freed = freed;
      run = run;
      valid = valid;
      back = erased ∙ erased_back k.mapped refl;
      same = same;
    }

Outcome-Frees :
    {order p : ℕ} {s s2 : SimpleBuddy} {space : Option ℕ}
    → Outcome order s space (some p) s2
    → Frees s p s2
Outcome-Frees (served k) = Kept-Frees k
Outcome-Frees (with_claim q no_blocks e k none_left) = Kept-Frees k

module _ (d : FirstFit) (order : ℕ) (s : SimpleBuddy) (w : IsSimple s) where
  open d use {State}

  -- A block that was handed out, and how the heaps stand behind it.
  record Handed (p : ℕ) (h2 : Heaps d) : Type 0 where
    current : State
    aligned : SimpleBuddy
    heaps : h2 ≡ record { current = some current; aligned = some aligned }
    frees : Frees s p aligned

  hand : Option ℕ → State → SimpleBuddy → Option (Option ℕ × Heaps d)
  hand r c2 s2 = r >>= (λ tmp. some (some tmp, record { current = some c2; aligned = some s2 }))

  hand-Handed :
      (space r : Option ℕ) (c2 : State) (s2 : SimpleBuddy) {p : ℕ} {h2 : Heaps d}
      → Outcome order s space r s2
      → hand r c2 s2 ≡ some (some p, h2)
      → Handed p h2
  unfolding hand
  hand-Handed space none c2 s2 o e = cc
  hand-Handed space (some q) c2 s2 {p} {h2} o e = record {
    current = c2;
    aligned = s2;
    heaps = sym (ap (λ r. r.1) (some_inj e));
    frees = subst (λ k. Frees s k s2) (some_inj (ap (λ r. r.0) (some_inj e))) (Outcome-Frees o);
  }

  -- What is claimed is what the first fit heap gives.
  claim_space_given :
      (first : Option ℕ) (c c2 : State) {space : Option ℕ}
      → claim_space d order first c ≡ some (space, c2)
      → (q : ℕ) → space ≡ some q
      → (d.alloc c (2 ^ claim_order order)).0 ≡ some q
  unfolding claim_space new_from
  claim_space_given (some addr) c c2 e q is_q = cc (ap (λ r. r.0) (some_inj e), is_q)
  claim_space_given none c c2 e q is_q = elim (Option-cases (d.alloc c (2 ^ claim_order order)).0) [
    | inl null ↦ cc (rw null at e)
    | inr (tmp, given_tmp) ↦ given_tmp ∙ ap (λ r. r.0) (some_inj (rw given_tmp at e)) ∙ is_q
  ]

  new_block-Handed :
      (c : State) {p : ℕ} {h2 : Heaps d}
      → ((b : Buddy) (c1 : State) (q : ℕ)
          → d.nodes s (record s { base = b }) c ≡ some c1
          → (d.alloc c1 (2 ^ claim_order order)).0 ≡ some q
          → Fresh order s q)
      → new_block d order c s ≡ some (some p, h2)
      → Handed p h2
  unfolding new_block hand
  new_block-Handed c {p} {h2} fresh e =
      let (first, b, run, did) = alloc-Granted s.base order w.pool in
      elim (Option-cases (d.nodes s (record s { base = b }) c)) [
        | inl no_nodes ↦ cc (rw (run, no_nodes) at e)
        | inr (c1, nodes1) ↦ elim (Option-cases (claim_space d order first c1)) [
          | inl none_left ↦ cc (rw (run, nodes1, none_left) at e)
          | inr ((space, c2), claimed) ↦
              let (r, s2, run2, o) =
                alloc-Outcome order s w space
                  (λ q is_q. fresh b c1 q nodes1 (claim_space_given first c1 c2 claimed q is_q)) in
              elim (Option-cases (d.nodes (record s { base = b }) s2 c2)) [
                | inl no_nodes ↦ cc (rw (run, nodes1, claimed, run2, no_nodes) at e)
                | inr (c3, nodes2) ↦
                    hand-Handed space r c3 s2 o (rw (run, nodes1, claimed, run2, nodes2) at e)
              ]
        ]
      ]

-- For an aligned heap in a valid state, an alignment above that of the first fit heap, and memory that is
-- fresh if some is claimed: for a pointer that operator new answers, operator delete with the same
-- alignment fails at most where a node of a set finds no memory, with no other assertion or exception; it
-- leaves the aligned heap in a valid state, with the allocations that it had before the new, and with the
-- memory that it had before the delete.
pub delete_aligned-new_aligned :
    (d : FirstFit) (size alignment p : ℕ) (c : d.State) (s : SimpleBuddy) (h2 : Heaps d)
    → IsSimple s
    → d.alignment < alignment
    → ((b : Buddy) (c1 : d.State) (q : ℕ)
        → d.nodes s (record s { base = b }) c ≡ some c1
        → (d.alloc c1 (2 ^ claim_order (aligned_order size alignment))).0 ≡ some q
        → Fresh (aligned_order size alignment) s q)
    → new_aligned d size alignment (record { current = some c; aligned = some s })
      ≡ some (some p, h2)
    → (c2 : d.State) × (s2 : SimpleBuddy) × (s3 : SimpleBuddy) × (h2
        ≡ record { current = some c2; aligned = some s2 })
      × (delete_aligned d p alignment h2
          ≡ (d.nodes s2 s3 c2 >>= (λ c3. some (record { current = some c3; aligned = some s3 }))))
      × IsSimple s3
      × (s3.alloc_map ≡ s.alloc_map)
      × ((x : ℕ) → total s3 x ≡ total s2 x)
unfolding new_aligned delete_aligned
delete_aligned-new_aligned d size alignment p c s h2 w above fresh e =
    elim (Bool-cases (leb (order_max alignment) s.base.max_order)) [
      | inr too_large ↦ cc (rw (beyond, too_large) at e)
      | inl fits ↦
          let handed =
            new_block-Handed d (aligned_order size alignment) s w c fresh
              (rw (beyond, fits) at e) in
          let frees = handed.frees in
          (
            handed.current,
            handed.aligned,
            frees.freed,
            handed.heaps,
            rw (handed.heaps, beyond, frees.run) refl,
            frees.valid,
            frees.back,
            frees.same,
          )
    ]
  where
    beyond : leb alignment d.alignment ≡ false
    beyond = ground (arith, above)
