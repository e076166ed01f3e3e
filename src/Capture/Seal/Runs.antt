-- ===== src/Capture/Seal/Runs.antt =====
-- src-tauri/src/capture/seal.rs: how a sequence of calls moves the file of a chunk from a place to another.
use life_sub.Common.{ℕ, ◌≡◌, refl, sym, subst, Bool, true, String, Result, ok, err}
use life_sub.Capture.Seal.{NativeChunkSealRequest, RegularFile, IoKind}
use life_sub.Capture.Seal.Insert.{CaptureCatalog}
use life_sub.Capture.Seal.Files.{
  World, Io, pure, continue, with_error, via, attempt, guard, ◌>>=◌, ◌>>◌, call, change,
}
use life_sub.Capture.Seal.Places.{Place, After, At, Stuck, called, changed}

-- From a predicate to a predicate, with a value, or an error after which `R` holds.
pub record Runs {E A : Type 0} (p q : World → Type 0) (c : A) (R : World → Type 0) (m : Io E A)
    : Type 0 where
  pub run : (w : World) → p w → After (λ a v. (a ≡ c) × q v) R (m w)

continued :
    {E A B : Type 0} {q r : World → Type 0} {c : A} {d : B} {R : World → Type 0} (k : A → Io E B)
    (x : World × Result E A)
    → After (λ a v. (a ≡ c) × q v) R x
    → Runs q r d R (k c)
    → After (λ a v. (a ≡ d) × r v) R (continue x k)
continued {r = r} {d = d} {R = R} k (w, ok a) (same, h) next =
    subst (λ b. After (λ a v. (a ≡ d) × r v) R (k b w)) (sym same) (next.run w h)
continued k (w, err e) h next = h

pub run_then :
    {E A B : Type 0} {p q r : World → Type 0} {c : A} {d : B} {R : World → Type 0} (m : Io E A)
    (k : A → Io E B)
    → Runs p q c R m
    → Runs q r d R (k c)
    → Runs p r d R (m >>= k)
unfolding ◌>>=◌
run_then m k first next = record { run = λ w h. continued k (m w) (first.run w h) next }

pub run_next :
    {E B : Type 0} {p q r : World → Type 0} {d : B} {R : World → Type 0} (m : Io E (Unit {0}))
    (k : Io E B)
    → Runs p q tt R m
    → Runs q r d R k
    → Runs p r d R (m >> k)
unfolding ◌>>◌
run_next m k first next = run_then m (λ _. k) first next

weakened :
    {E A : Type 0} (Q : A → World → Type 0) (R R' : World → Type 0) (x : World × Result E A)
    → ((w : World) → R w → R' w)
    → After Q R x
    → After Q R' x
weakened Q R R' (w, ok a) f h = h
weakened Q R R' (w, err e) f h = f w h

pub run_weaken :
    {E A : Type 0} {p q : World → Type 0} {c : A} {R R' : World → Type 0} (m : Io E A)
    → ((w : World) → R w → R' w)
    → Runs p q c R m
    → Runs p q c R' m
run_weaken {q = q} {c = c} {R = R} {R' = R'} m f r = record {
  run = λ w h. weakened (λ a v. (a ≡ c) × q v) R R' (m w) f (r.run w h);
}

converted :
    {E F A : Type 0} (Q : A → World → Type 0) (R : World → Type 0) (g : E → F)
    (x : World × Result E A)
    → After Q R x
    → After Q R (with_error g x)
converted Q R g (w, ok a) h = h
converted Q R g (w, err e) h = h

pub run_via :
    {E F A : Type 0} {p q : World → Type 0} {c : A} {R : World → Type 0} (g : E → F) (m : Io E A)
    → Runs p q c R m
    → Runs p q c R (via g m)
unfolding via
run_via {q = q} {c = c} {R = R} g m r = record {
  run = λ w h. converted (λ a v. (a ≡ c) × q v) R g (m w) (r.run w h);
}

attempted :
    {E F A B : Type 0} (q : World → Type 0) (c : A) (S : World → Type 0) (Q : B → World → Type 0)
    (R : World → Type 0) (x : World × Result E A) (k : Result E A → Io F B)
    → After (λ a v. (a ≡ c) × q v) S x
    → ((w : World) → q w → After Q R (k (ok c) w))
    → ((e : E) (w : World) → S w → After Q R (k (err e) w))
    → After Q R (continue (x.0, ok x.1) k)
attempted q c S Q R (w, ok a) k (same, h) f g =
    subst (λ b. After Q R (k (ok b) w)) (sym same) (f w h)
attempted q c S Q R (w, err e) k h f g = g e w h

pub run_attempt :
    {E F A B : Type 0} {p q : World → Type 0} {c : A} (S : World → Type 0) (Q : B → World → Type 0)
    (R : World → Type 0) (m : Io E A) (k : Result E A → Io F B)
    → Runs p q c S m
    → ((w : World) → q w → After Q R (k (ok c) w))
    → ((e : E) (w : World) → S w → After Q R (k (err e) w))
    → (w : World) → p w
    → After Q R ((attempt m >>= k) w)
unfolding attempt ◌>>=◌
run_attempt S Q R m k r f g w h = attempted _ _ S Q R (m w) k (r.run w h) f g

pub run_pure :
    {E A : Type 0} {p : World → Type 0} {R : World → Type 0} (c : A) → Runs p p c R (pure {E = E} c)
unfolding pure
run_pure c = record { run = λ w h. (refl, h) }

pub run_guard :
    {E : Type 0} {p : World → Type 0} {R : World → Type 0} (b : Bool) (e : E)
    → b ≡ true
    → Runs p p tt R (guard b e)
unfolding guard pure
run_guard {p = p} {R = R} b e yes_b =
    subst (λ b. Runs p p tt R (guard b e)) (sym yes_b) (run_pure tt)

continued_after :
    {E A B : Type 0} (q : World → Type 0) (c : A) (Q : B → World → Type 0) (R : World → Type 0)
    (k : A → Io E B) (x : World × Result E A)
    → After (λ a v. (a ≡ c) × q v) R x
    → ((w : World) → q w → After Q R (k c w))
    → After Q R (continue x k)
continued_after q c Q R k (w, ok a) (same, h) next =
    subst (λ b. After Q R (k b w)) (sym same) (next w h)
continued_after q c Q R k (w, err e) h next = h

-- A run, and then what holds of the rest wherever it leads.
pub run_into :
    {E B : Type 0} {p q : World → Type 0} (Q : B → World → Type 0) {R : World → Type 0}
    (m : Io E (Unit {0})) (k : Io E B)
    → Runs p q tt R m
    → ((w : World) → q w → After Q R (k w))
    → (w : World) → p w
    → After Q R ((m >> k) w)
unfolding ◌>>◌ ◌>>=◌
run_into {q = q} Q {R = R} m k first next w h =
    continued_after q tt Q R (λ _. k) (m w) (first.run w h) next

-- What only fails.
abbrev pub Fails : {E A : Type 0} → (World → Type 0) → World × Result E A → Type 0
Fails R (w, ok a) = ⊥
Fails R (w, err e) = R w

stopped :
    {E A B : Type 0} (Q : B → World → Type 0) (R : World → Type 0) (x : World × Result E A)
    (k : A → Io E B)
    → Fails R x
    → After Q R (continue x k)
stopped Q R (w, ok a) k h = elim h [ ]
stopped Q R (w, err e) k h = h

pub run_stops :
    {E B : Type 0} (Q : B → World → Type 0) (R : World → Type 0) (m : Io E (Unit {0})) (k : Io E B)
    (w : World)
    → Fails R (m w)
    → After Q R ((m >> k) w)
unfolding ◌>>◌ ◌>>=◌
run_stops Q R m k w h = stopped Q R (m w) (λ _. k) h

pub fails :
    {E A : Type 0} (R : World → Type 0) (x : World × Result E A) → After (λ _ _. ⊥) R x → Fails R x
fails R (w, ok a) h = h
fails R (w, err e) h = h

pub failing :
    {E A : Type 0} (Q : A → World → Type 0) (R : World → Type 0) (x : World × Result E A)
    → Fails R x
    → After Q R x
failing Q R (w, ok a) h = elim h [ ]
failing Q R (w, err e) h = h

-- A value that the world determines.
pub run_inspect :
    {E A : Type 0} {p : World → Type 0} {R : World → Type 0} (f : World → Result E A) (c : A)
    → ((w : World) → p w → f w ≡ ok c)
    → Runs p p c R (λ w. (w, f w))
run_inspect {p = p} {R = R} f c known = record {
  run = λ w h. subst (λ r. After (λ a v. (a ≡ c) × p v) R (w, r)) (sym (known w h)) (refl, h);
}

module _ (request : NativeChunkSealRequest) (final_name : String) (file : RegularFile)
    (before : CaptureCatalog) (answers : ℕ → Bool) where
  abbrev AtPlace : Place → World → Type 0
  AtPlace = At request final_name file before

  abbrev StuckAt : Place → World → Type 0
  StuckAt = Stuck request final_name file before answers

  pub run_call :
      {E : Type 0} (p : Place) (e : E)
      → Runs (AtPlace p) (AtPlace p) tt (StuckAt p) (call answers e)
  run_call p e = record { run = λ w h. called request final_name file before answers p e w h }

  pub run_change :
      (p q : Place) (f : World → Result IoKind World)
      → ((v : World) → AtPlace p v → (u : World) × (f v ≡ ok u) × AtPlace q u)
      → Runs (AtPlace p) (AtPlace q) tt (StuckAt p) (change answers f)
  run_change p q f step = record {
    run = λ w h. changed request final_name file before answers p q f w step h;
  }
