-- ===== src/Checkpoints/Tracking.antt =====
-- A checkpoint follows the commits that come after it: restoring it gives the map that the alias
-- table itself would have, had only those commits happened to it.
use ooo_superscalar_risc_sim.Common.{
  ℕ, zero, suc, ◌<◌, ◌≡◌, ◌≢◌, ◌∙◌, refl, sym, ap, Bool, true, false, Option, none, some, List, [],
  ◌∷◌, arith, if◌then◌else◌, ◌==◌, ==_iff, Bool-cases, ltb→lt, length, get_or, length-set,
  get_or-set_self, get_or-set_ne, inl, inr, ltb, replicate, length-replicate,
}
use ooo_superscalar_risc_sim.Common.Int.{ℤ, pos, negsuc}
use ooo_superscalar_risc_sim.Rat
use ooo_superscalar_risc_sim.Rat.{RatMap, RegisterAliasTable, clear_entry}
use ooo_superscalar_risc_sim.Rat.Laws.{length-clear_entry, get_or-clear_entry}
use ooo_superscalar_risc_sim.Checkpoints.{
  RatCheckpoints, init, save, restore, clear_maps, on_commit_clear, invalidate,
}

pub record IsValid (c : RatCheckpoints) : Type 0 where
  pub flags : length c.valid ≡ c.rob_depth
  pub sized : length c.maps ≡ c.rob_depth

pub init-IsValid : (rob_depth num_regs : ℕ) → IsValid (init rob_depth num_regs)
unfolding init
init-IsValid rob_depth num_regs = record {
  flags = length-replicate rob_depth false;
  sized = length-replicate rob_depth (replicate num_regs none);
}

-- What a run does to the checkpoints between a branch's rename and its recovery.
pub data Event : Type 0 where
  saves : ℕ → RatMap → Event
  commits : ℤ → ℕ → Event
  drops : ℤ → Event

-- A save that fails its assertion stops the program: the event then changes nothing here.
abbrev pub after : RatCheckpoints → Option RatCheckpoints → RatCheckpoints
after c none = c
after c (some c') = c'

pub step : RatCheckpoints → Event → RatCheckpoints
step c (saves tag m) = after c (save c (pos tag) m)
step c (commits reg id) = on_commit_clear c reg id
step c (drops tag) = invalidate c tag

pub run : RatCheckpoints → List Event → RatCheckpoints
run c [] = c
run c (e ∷ es) = run (step c e) es

-- No event is a save or a drop of the tag's own checkpoint.
abbrev pub Spares : ℕ → List Event → Type 0
Spares t [] = Unit {0}
Spares t (saves tag m ∷ es) = (tag ≢ t) × Spares t es
Spares t (commits reg id ∷ es) = Spares t es
Spares t (drops tag ∷ es) = (tag ≢ pos t) × Spares t es

-- The same commits, made on an alias table.
pub commits_on : RegisterAliasTable → List Event → RegisterAliasTable
commits_on t [] = t
commits_on t (saves tag m ∷ es) = commits_on t es
commits_on t (commits reg id ∷ es) = commits_on (Rat.commit t reg id) es
commits_on t (drops tag ∷ es) = commits_on t es

length-clear_maps :
    (r id : ℕ) (bs : List Bool) (ms : List RatMap) → length (clear_maps r id bs ms) ≡ length ms
unfolding clear_maps
length-clear_maps r id [] ms = refl
length-clear_maps r id (b ∷ bs) [] = refl
length-clear_maps r id (b ∷ bs) (m ∷ ms) = ap suc (length-clear_maps r id bs ms)

get_or-clear_maps :
    (r id t : ℕ) (bs : List Bool) (ms : List RatMap)
    → t < length bs
    → t < length ms
    → get_or bs t false ≡ true
    → get_or (clear_maps r id bs ms) t [] ≡ clear_entry (get_or ms t []) r id
unfolding clear_maps
get_or-clear_maps r id t [] ms h k b = absurd (omega arith)
get_or-clear_maps r id t (x ∷ bs) [] h k b = absurd (omega arith)
get_or-clear_maps r id zero (x ∷ bs) (m ∷ ms) h k b = ground arith
get_or-clear_maps r id (suc t) (x ∷ bs) (m ∷ ms) h k b =
    get_or-clear_maps r id t bs ms (omega arith) (omega arith) b

pub step-IsValid : {c : RatCheckpoints} (e : Event) → IsValid c → IsValid (step c e)
unfolding step save on_commit_clear invalidate
step-IsValid {c} (saves tag m) v =
    ground (arith, length-set c.valid tag true, length-set c.maps tag m)
step-IsValid {c} (commits (pos r) id) v = ground (arith, length-clear_maps r id c.valid c.maps)
step-IsValid {c} (commits (negsuc r) id) v = v
step-IsValid {c} (drops (pos t)) v = ground (arith, length-set c.valid t false)
step-IsValid {c} (drops (negsuc t)) v = v

-- The checkpoint at `t` is live and holds `m`, a map of the right size with register 0 unmapped.
pub record Holds (c : RatCheckpoints) (t : ℕ) (m : RatMap) : Type 0 where
  pub in_range : t < c.rob_depth
  pub is_live : get_or c.valid t false ≡ true
  pub stored : get_or c.maps t [] ≡ m
  pub size : length m ≡ c.num_regs
  pub zero_free : get_or m 0 none ≡ none

num_regs-step : (c : RatCheckpoints) (e : Event) → (step c e).num_regs ≡ c.num_regs
unfolding step save on_commit_clear invalidate
num_regs-step c (saves tag m) = ground arith
num_regs-step c (commits (pos r) id) = ground arith
num_regs-step c (commits (negsuc r) id) = refl
num_regs-step c (drops (pos t)) = ground arith
num_regs-step c (drops (negsuc t)) = refl

clear_entry_free : (m : RatMap) (id : ℕ) → get_or m 0 none ≡ none → clear_entry m 0 id ≡ m
unfolding clear_entry
clear_entry_free m id h = ground arith

Holds-clear :
    {c : RatCheckpoints} {t : ℕ} {m : RatMap} (r id : ℕ)
    → IsValid c
    → r < c.num_regs
    → Holds c t m
    → Holds (record c { maps = clear_maps r id c.valid c.maps }) t (clear_entry m r id)
Holds-clear {c} {t} {m} r id v lt h = record {
  in_range = h.in_range;
  is_live = h.is_live;
  stored =
      get_or-clear_maps r id t c.valid c.maps (rw v.flags h.in_range) (rw v.sized h.in_range)
        h.is_live
      ∙ ap (λ x. clear_entry x r id) h.stored;
  size = length-clear_entry m r id ∙ h.size;
  zero_free = get_or-clear_entry m r 0 id (rw h.size lt) ∙ ground (arith, h.zero_free);
}

cleared :
    (c : RatCheckpoints) (r id : ℕ)
    → on_commit_clear c (pos r) id ≡ (
        if ltb r c.num_regs
        then if r == 0 then c else record c { maps = clear_maps r id c.valid c.maps }
        else c)
unfolding on_commit_clear
cleared c r id = ground arith

committed :
    (a : RegisterAliasTable) (r id : ℕ)
    → (Rat.commit a (pos r) id).rat
      ≡ (if ltb r a.num_logical_regs then clear_entry a.rat r id else a.rat)
unfolding Rat.commit
committed a r id = ground arith

Holds-commits :
    {c : RatCheckpoints} {t : ℕ} {a : RegisterAliasTable} (reg : ℤ) (id : ℕ)
    → IsValid c
    → a.num_logical_regs ≡ c.num_regs
    → Holds c t a.rat
    → Holds (on_commit_clear c reg id) t (Rat.commit a reg id).rat
Holds-commits (negsuc r) id v n h = unfold on_commit_clear Rat.commit in h
Holds-commits {c} {t} {a} (pos r) id v n h =
    rw (cleared c r id, committed a r id, n)
      (elim (Bool-cases (ltb r c.num_regs)) [
        | inr out ↦ rw out h
        | inl lt ↦ rw lt (elim (Bool-cases (r == 0)) [
          | inl z ↦ rw z (rw ((==_iff r 0).0 z, clear_entry_free a.rat id h.zero_free) h)
          | inr nz ↦ rw nz (Holds-clear r id v (ltb→lt r c.num_regs lt) h)
        ])
      ])

Holds-saves :
    {c : RatCheckpoints} {t : ℕ} {m : RatMap} (tag : ℕ) (m' : RatMap)
    → tag ≢ t
    → Holds c t m
    → Holds (step c (saves tag m')) t m
unfolding step save
Holds-saves {c} {t} {m} tag m' ne h =
    ground (arith, get_or-set_ne c.valid tag t true false ne, get_or-set_ne c.maps tag t m' [] ne)

Holds-drops :
    {c : RatCheckpoints} {t : ℕ} {m : RatMap} (tag : ℤ)
    → tag ≢ pos t
    → Holds c t m
    → Holds (step c (drops tag)) t m
unfolding step invalidate
Holds-drops {c} {t} (pos tag) ne h =
    ground (arith, get_or-set_ne c.valid tag t false false (λ e. ne (ap pos e)))
Holds-drops (negsuc tag) ne h = h

num_logical_regs-commit :
    (t : RegisterAliasTable) (reg : ℤ) (id : ℕ)
    → (Rat.commit t reg id).num_logical_regs ≡ t.num_logical_regs
unfolding Rat.commit
num_logical_regs-commit t (pos r) id = ground arith
num_logical_regs-commit t (negsuc r) id = refl

Holds-run :
    (c : RatCheckpoints) {t : ℕ} (a : RegisterAliasTable) (es : List Event)
    → IsValid c
    → a.num_logical_regs ≡ c.num_regs
    → Spares t es
    → Holds c t a.rat
    → Holds (run c es) t (commits_on a es).rat
unfolding run commits_on
Holds-run c a [] v n sp h = h
Holds-run c a (saves tag m ∷ es) v n sp h =
    Holds-run (step c (saves tag m)) a es (step-IsValid (saves tag m) v)
      (n ∙ sym (num_regs-step c (saves tag m))) sp.1 (Holds-saves tag m sp.0 h)
Holds-run c a (commits reg id ∷ es) v n sp h =
    Holds-run (step c (commits reg id)) (Rat.commit a reg id) es (step-IsValid (commits reg id) v)
      (num_logical_regs-commit a reg id ∙ n ∙ sym (num_regs-step c (commits reg id))) sp
      (unfold step in Holds-commits reg id v n h)
Holds-run c a (drops tag ∷ es) v n sp h =
    Holds-run (step c (drops tag)) a es (step-IsValid (drops tag) v)
      (n ∙ sym (num_regs-step c (drops tag))) sp.1 (Holds-drops tag sp.0 h)

Holds-save :
    {c : RatCheckpoints} (t : ℕ) (m : RatMap)
    → IsValid c
    → t < c.rob_depth
    → length m ≡ c.num_regs
    → get_or m 0 none ≡ none
    → Holds (step c (saves t m)) t m
unfolding step save
Holds-save {c} t m v lt size zero_free = ground (
  arith,
  get_or-set_self c.valid t true false (rw v.flags lt),
  get_or-set_self c.maps t m [] (rw v.sized lt),
)

restore-Holds : {c : RatCheckpoints} {t : ℕ} {m : RatMap} → Holds c t m → restore c (pos t) ≡ some m
unfolding restore
restore-Holds h = ground (arith, h.in_range, h.is_live, h.stored)

-- A checkpoint saved at a tag, with register 0 unmapped, and left alone by later saves and drops, is
-- restored as the map of an alias table that started from the saved one and saw the same commits: no
-- instruction that retired meanwhile comes back, and nothing else is lost.
pub restore-run :
    {c : RatCheckpoints} (a : RegisterAliasTable) (t : ℕ) (es : List Event)
    → IsValid c
    → t < c.rob_depth
    → a.num_logical_regs ≡ c.num_regs
    → length a.rat ≡ a.num_logical_regs
    → get_or a.rat 0 none ≡ none
    → Spares t es
    → restore (run (step c (saves t a.rat)) es) (pos t) ≡ some (commits_on a es).rat
restore-run {c} a t es v lt n size zero_free sp = restore-Holds (
    Holds-run (step c (saves t a.rat)) a es (step-IsValid (saves t a.rat) v)
      (n ∙ sym (num_regs-step c (saves t a.rat))) sp (Holds-save t a.rat v lt (size ∙ n) zero_free))
