-- ===== src/Play/Opening/Laws.antt =====
-- The buses that play opens are those that the driver has for the columns of the trajectory.
use encos_cli.Base.{
  ℕ, ◌≡◌, refl, sym, ap, ◌∙◌, Bool, Option, none, some, List, [], ◌∷◌, ◌++◌, append_assoc,
  append-nil, Bytes, codes, str_eq, str_eq_iff, if◌then◌else◌, All, All-append, Result, Error, ok,
  err, runtime_error, Ensures, Ensures-bind, Bool-cases, Option-cases, inl, inr, ◌&&◌, length,
  arith,
}
use encos_cli.Trajectory.Connection.{MotorConnection}
use encos_cli.Play.Opening.{
  MotorDriver, AdapterEntry, Opened, find_adapter, require, open_adapter, open_bus, open_buses,
}

pub Ensures-require :
    {A : Type 0} (P : A → Type 0) (o : Option A) (e : Error)
    → ((a : A) → o ≡ some a → P a)
    → Ensures P (require o (err e))
Ensures-require P none e h = tt
Ensures-require P (some a) e h = h a refl

Ensures-eq : {A : Type 0} (r : Result A) → Ensures (λ a. r ≡ ok a) r
Ensures-eq (ok a) = refl
Ensures-eq (err e) = tt

Ensures-map :
    {A : Type 0} (P Q : A → Type 0) (r : Result A)
    → Ensures P r
    → ((a : A) → P a → Q a)
    → Ensures Q r
Ensures-map P Q (ok a) h f = f a h
Ensures-map P Q (err e) h f = tt

module _ {F : Type 0} (driver : MotorDriver F) (dry_run : Bool) where
  -- The driver makes this adapter of the type and the id, the type being Fake in a dry run.
  abbrev pub IsAdapter : Bytes → Bytes → ℕ → Type 0
  IsAdapter type id adapter =
      driver.make_adapter (if dry_run then codes "Fake" else type) id ≡ some adapter

  abbrev pub IsEntry : AdapterEntry → Type 0
  IsEntry a = IsAdapter a.key_type a.key_id a.adapter

  -- The driver has this bus for a column, on the adapter that it makes for the column.
  pub record IsOpened (c : MotorConnection) (bus : ℕ) : Type 0 where
    pub adapter : ℕ
    pub made : IsAdapter c.adapter_type c.adapter_id adapter
    pub got : driver.get_bus adapter c.slave_id c.bus_id ≡ ok (some bus)

  -- So many columns, and a bus for each.
  abbrev pub AreOpened : List MotorConnection → List ℕ → Type 0
  AreOpened [] [] = Unit
  AreOpened (c ∷ connections) (bus ∷ buses) = IsOpened c bus × AreOpened connections buses
  AreOpened _ _ = ⊥

  find_adapter-IsAdapter :
      (adapters : List AdapterEntry) (type id : Bytes) (adapter : ℕ)
      → All IsEntry adapters
      → find_adapter adapters type id ≡ some adapter
      → IsAdapter type id adapter
  unfolding find_adapter
  find_adapter-IsAdapter [] type id adapter hs e = cc
  find_adapter-IsAdapter (a ∷ adapters) type id adapter (h, hs) e =
      elim (Bool-cases (str_eq a.key_type type && str_eq a.key_id id)) [
        | inl same ↦
            let t : a.key_type ≡ type = (str_eq_iff a.key_type type).0 (ground arith) in
            let i : a.key_id ≡ id = (str_eq_iff a.key_id id).0 (ground arith) in
            let found : a.adapter ≡ adapter = ground arith in rw (t, i, found) at h
        | inr other ↦ find_adapter-IsAdapter adapters type id adapter hs (ground arith)
      ]

  -- What opening an adapter leaves.
  abbrev Adapter : Opened → MotorConnection → ℕ × Opened → Type 0
  Adapter s c (adapter, opened) =
      IsAdapter c.adapter_type c.adapter_id adapter
      × All IsEntry opened.adapters
      × (opened.trajectory_buses ≡ s.trajectory_buses)

  open_adapter-IsAdapter :
      (s : Opened) (c : MotorConnection) (name : Bytes)
      → All IsEntry s.adapters
      → Ensures (Adapter s c) (open_adapter driver dry_run s c name)
  unfolding open_adapter
  open_adapter-IsAdapter s c name hs =
      elim (Option-cases (find_adapter s.adapters c.adapter_type c.adapter_id)) [
        | inr (adapter, e) ↦
            rw (e, Ensures)
              (find_adapter-IsAdapter s.adapters c.adapter_type c.adapter_id adapter hs e, hs, refl)
        | inl e ↦
            rw (e, Ensures)
              (Ensures-bind (IsAdapter c.adapter_type c.adapter_id) (Adapter s c)
                (require
                  (driver.make_adapter (if dry_run then codes "Fake" else c.adapter_type)
                    c.adapter_id)
                  (err (runtime_error "Failed to create adapter for " name)))
                _ (Ensures-require (IsAdapter c.adapter_type c.adapter_id) _ _ λ adapter made. made)
                λ adapter made. (
                  made,
                  All-append IsEntry s.adapters
                      (record {
                        key_type = c.adapter_type;
                        key_id = c.adapter_id;
                        adapter = adapter;
                      }
                        ∷ [])
                      hs (made, tt),
                  refl,
                ))
      ]

  -- What opening buses leaves: those that were there, and one for each column.
  pub record Buses (s : Opened) (connections : List MotorConnection) (opened : Opened)
      : Type 0 where
    pub entered : All IsEntry opened.adapters
    pub more : List ℕ
    pub all : opened.trajectory_buses ≡ s.trajectory_buses ++ more
    pub opens : AreOpened connections more

  open_bus-IsOpened :
      (s : Opened) (c : MotorConnection) (name : Bytes)
      → All IsEntry s.adapters
      → Ensures (Buses s (c ∷ [])) (open_bus driver dry_run s c name)
  unfolding open_bus
  open_bus-IsOpened s c name hs =
      Ensures-bind (Adapter s c) (Buses s (c ∷ [])) (open_adapter driver dry_run s c name) _
        (open_adapter-IsAdapter s c name hs)
        λ (adapter, opened) (made, entered, same).
          let call = driver.get_bus adapter c.slave_id c.bus_id in
          Ensures-bind (λ found. call ≡ ok found) (Buses s (c ∷ [])) call _ (Ensures-eq call)
            λ found got.
              Ensures-bind (λ bus. found ≡ some bus) (Buses s (c ∷ []))
                (require found (err (runtime_error "Failed to get bus for " name))) _
                (Ensures-require (λ bus. found ≡ some bus) found _ λ bus e. e)
                λ bus e. record {
                  entered = entered;
                  more = bus ∷ [];
                  all = ap (λ l. l ++ (bus ∷ [])) same;
                  opens = (record { adapter = adapter; made = made; got = rw e at got }, tt);
                }

  Buses-more :
      (s next : Opened) (c : MotorConnection) (connections : List MotorConnection)
      → Buses s (c ∷ []) next
      → (opened : Opened) → Buses next connections opened
      → Buses s (c ∷ connections) opened
  Buses-more s next c connections first opened rest = more first.more first.all first.opens
    where
      more :
          (l : List ℕ)
          → next.trajectory_buses ≡ s.trajectory_buses ++ l
          → AreOpened (c ∷ []) l
          → Buses s (c ∷ connections) opened
      more [] e h = absurd h
      more (bus ∷ b ∷ l) e (_, h) = absurd h
      more (bus ∷ []) e (h, _) = record {
        entered = rest.entered;
        more = bus ∷ rest.more;
        all =
            rest.all
            ∙ ap (λ l. l ++ rest.more) e
            ∙ append_assoc s.trajectory_buses (bus ∷ []) rest.more;
        opens = (h, rest.opens);
      }

  -- With as many names as columns, the buses behind those that were there are those of the columns,
  -- in their order.
  pub open_buses-AreOpened :
      (s : Opened) (connections : List MotorConnection) (names : List Bytes)
      → length names ≡ length connections
      → All IsEntry s.adapters
      → Ensures (Buses s connections) (open_buses driver dry_run s connections names)
  unfolding open_buses
  open_buses-AreOpened s [] names e hs = record {
    entered = hs;
    more = [];
    all = sym (append-nil s.trajectory_buses);
    opens = tt;
  }
  open_buses-AreOpened s (c ∷ connections) [] e hs = absurd (omega arith)
  open_buses-AreOpened s (c ∷ connections) (name ∷ names) e hs =
      Ensures-bind (Buses s (c ∷ [])) (Buses s (c ∷ connections)) (open_bus driver dry_run s c name)
        _ (open_bus-IsOpened s c name hs)
        λ next first.
          let more : Result Opened = open_buses driver dry_run next connections names in
          Ensures-map (Buses next connections) (Buses s (c ∷ connections)) more
            (open_buses-AreOpened next connections names (omega arith) first.entered)
            (Buses-more s next c connections first)
