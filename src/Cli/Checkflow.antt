-- ===== src/Cli/Checkflow.antt =====
-- What the exit code 0 of `cli_checkflow` in src/cli/ppc2cpp.cpp means.
use Prim.Native.String.{String}
use ppc2cpp.Prelude.{
  ℕ, ◌<◌, ◌%◌, ◌≡◌, ◌≢◌, ◌↔◌, ◌⊎◌, ◌∙◌, inl, inr, refl, ap, subst, Bool, true, false, Option, none,
  some, List, [], ◌∷◌, ◌==◌, if◌then◌else◌, arith, length, u32_mod, Bool-cases, Option-cases,
}
use ppc2cpp.Model.Location.{ProgramLocation}
use ppc2cpp.Model.Symbol.{Symbol}
use ppc2cpp.Model.SymbolTable.{lookup_by_name, lookup_by_location}
use ppc2cpp.Program.{Buffer, Outcome, ok, ◌>>=◌, value, value-eq-ok, bind-eq-ok}
use ppc2cpp.ControlFlow.Graph.{empty}
use ppc2cpp.ControlFlow.Analysis.{function_cfa}
use ppc2cpp.DataFlow.Node.{IsAcyclic}
use ppc2cpp.DataFlow.Function.{Function, empty_graph}
use ppc2cpp.DataFlow.Transfer.Acyclic.{Iterates}
use ppc2cpp.DataFlow.Analysis.Acyclic.{GraphOk, function_dfa-GraphOk, empty_graph-GraphOk}
use ppc2cpp.Loading.{ProgramLoader, loader_of, get_buffer_at_location, resolve_vma}
use ppc2cpp.Compare.Flows.{sides, compare_function_flows}
use ppc2cpp.Compare.Flows.Meaning.{BlockMatches, compare_function_flows_iff}
use ppc2cpp.Compare.Symbols.{compare_relocations, compare_symbols}
use ppc2cpp.Cli.{
  Setting, with_cfa, with_dfa, find_symbols, flows_equal, compare_flows, check_functions,
  cli_checkflow,
}

pair_eq :
    {a b c d : Option Symbol}
    → ◌≡◌ {A = Option (Option Symbol × Option Symbol)} (some (a, b)) (some (c, d))
    → (a ≡ c) × (b ≡ d)
pair_eq e = (cc, cc)

module _ (set : Setting) (p1 p2 : ProgramLoader) where
  -- Both functions have a buffer, and they have as many blocks, with the same sinks and successors.
  abbrev pub FlowsMatch : Function → Function → Type 0
  FlowsMatch f1 f2 =
      (buf1 : Buffer) × (buf2 : Buffer) × (get_buffer_at_location p1 f1.symbol.location ≡ some buf1)
      × (get_buffer_at_location p2 f2.symbol.location ≡ some buf2)
      × (length f1.cfg.blocks ≡ length f2.cfg.blocks)
      × ((i : ℕ)
          → i < length f1.cfg.blocks
          → BlockMatches
              (sides set.host set.lookup
                (compare_relocations set.host set.types p1 p2
                  (compare_symbols set.host set.types p1 p2 set.depth))
                (loader_of p1) (loader_of p2) f1 f2 buf1 buf2)
              f1 f2 i)

  flows_equal_iff :
      (f1 f2 : Function)
      → IsAcyclic f1.dfg.heap
      → (flows_equal set p1 p2 f1 f2 ≡ ok true) ↔ FlowsMatch f1 f2
  unfolding compare_function_flows
  flows_equal_iff f1 f2 acyclic =
      let iff =
        λ (b1 b2 : Buffer) (h1 : get_buffer_at_location p1 f1.symbol.location ≡ some b1)
            (h2 : get_buffer_at_location p2 f2.symbol.location ≡ some b2).
          compare_function_flows_iff set.host set.lookup
            (compare_relocations set.host set.types p1 p2
              (compare_symbols set.host set.types p1 p2 set.depth))
            (loader_of p1) (loader_of p2) f1 f2 b1 b2 acyclic h1 h2 in
      (
        λ e.
            let (b1, r1, e1) =
              bind-eq-ok (value (get_buffer_at_location p1 f1.symbol.location)) _ e in
            let (b2, r2, e2) =
              bind-eq-ok (value (get_buffer_at_location p2 f2.symbol.location)) _ e1 in
            let h1 = value-eq-ok (get_buffer_at_location p1 f1.symbol.location) b1 r1 in
            let h2 = value-eq-ok (get_buffer_at_location p2 f2.symbol.location) b2 r2 in
            let match = (iff b1 b2 h1 h2).0 e in (b1, b2, h1, h2, match.0, match.1),
        λ h. let (b1, b2, h1, h2, blocks, match) = h in (iff b1 b2 h1 h2).1 (blocks, match),
      )

  -- A symbol's function, analysed: its control flow graph and, from it, its data flow graph.
  abbrev pub Analysed : ProgramLoader → Symbol → Function → Type 0
  Analysed p symbol f = (g : Function) × (with_cfa set p symbol ≡ ok g) × (with_dfa set p g ≡ ok f)

  abbrev pub SymbolsFlowAlike : Symbol → Symbol → Type 0
  SymbolsFlowAlike symbol1 symbol2 =
      (f1 : Function) × (f2 : Function) × Analysed p1 symbol1 f1
      × Analysed p2 symbol2 f2
      × FlowsMatch f1 f2

  -- The symbols that an argument names in the two programs: those of its name, or, for a number
  -- other than 0, those at the location that the first program has for the address.
  abbrev pub Names : String → Symbol → Symbol → Type 0
  Names arg symbol1 symbol2 =
      let vma = set.atol arg % u32_mod in
      ((vma ≡ 0)
        × (lookup_by_name p1.symtab arg ≡ some symbol1)
        × (lookup_by_name p2.symtab arg ≡ some symbol2))
      ⊎ ((vma ≢ 0)
          × (loc : ProgramLocation) × (resolve_vma p1 vma ≡ some loc)
          × (lookup_by_location p1.symtab loc ≡ some symbol1)
          × (lookup_by_location p2.symtab loc ≡ some symbol2))

  -- Each argument names a symbol in both programs, and the two flow alike.
  abbrev pub AllAlike : List String → Type 0
  AllAlike [] = Unit
  AllAlike (arg ∷ args) =
      ((symbol1 : Symbol) × (symbol2 : Symbol) × Names arg symbol1 symbol2
        × SymbolsFlowAlike symbol1 symbol2)
      × AllAlike args

  module _ (iterates : Iterates set.dis.iterate) where
    Analysed-IsAcyclic :
        (p : ProgramLoader) (symbol : Symbol) (g f : Function)
        → with_cfa set p symbol ≡ ok g
        → with_dfa set p g ≡ ok f
        → IsAcyclic f.dfg.heap
    Analysed-IsAcyclic p symbol g f cfa dfa =
        let (c, _, made) =
          bind-eq-ok (function_cfa set.host set.dis.operand_value (loader_of p) symbol empty) _
            cfa in
        let start : GraphOk g.dfg =
          subst (λ (h : Function). GraphOk h.dfg)
            {x = record { symbol = symbol; cfg = c; dfg = empty_graph }} {y = g} (cc)
            empty_graph-GraphOk in
        let ok_graph =
          function_dfa-GraphOk set.host set.dis (loader_of p) set.rounds g f iterates start dfa in
        ok_graph.0.acyclic

    compare_flows_iff :
        (symbol1 symbol2 : Symbol)
        → (compare_flows set p1 p2 symbol1 symbol2 ≡ ok true) ↔ SymbolsFlowAlike symbol1 symbol2
    unfolding compare_flows
    compare_flows_iff symbol1 symbol2 = (
      λ e.
          let (g1, c1, e1) = bind-eq-ok (with_cfa set p1 symbol1) _ e in
          let (g2, c2, e2) = bind-eq-ok (with_cfa set p2 symbol2) _ e1 in
          let (f1, d1, e3) = bind-eq-ok (with_dfa set p1 g1) _ e2 in
          let (f2, d2, e4) = bind-eq-ok (with_dfa set p2 g2) _ e3 in
          (
            f1,
            f2,
            (g1, c1, d1),
            (g2, c2, d2),
            (flows_equal_iff f1 f2 (Analysed-IsAcyclic p1 symbol1 g1 f1 c1 d1)).0 e4,
          ),
      λ h.
          let (f1, f2, a1, a2, match) = h in
          let (g1, c1, d1) = a1 in
          let (g2, c2, d2) = a2 in
          let equal : flows_equal set p1 p2 f1 f2 ≡ ok true =
            (flows_equal_iff f1 f2 (Analysed-IsAcyclic p1 symbol1 g1 f1 c1 d1)).1 match in
          rw (c1, c2, ◌>>=◌, d1, d2, compare_flows) equal,
    )

    find_symbols-Names :
        (arg : String) (symbol1 symbol2 : Symbol)
        → find_symbols set p1 p2 arg ≡ some (some symbol1, some symbol2)
        → Names arg symbol1 symbol2
    unfolding find_symbols
    find_symbols-Names arg symbol1 symbol2 e =
        let vma = set.atol arg % u32_mod in
        elim (Bool-cases (vma == 0)) [
          | inl z ↦
              let here : ◌≡◌ {A = Option (Option Symbol × Option Symbol)}
                  (some (lookup_by_name p1.symtab arg, lookup_by_name p2.symtab arg))
                  (some (some symbol1, some symbol2)) =
                rw (z, find_symbols) at e in
              let (n1, n2) = pair_eq here in inl (ground arith, n1, n2)
          | inr n ↦ elim (Option-cases (resolve_vma p1 vma)) [
            | inl r ↦ absurd (
                let no : ◌≡◌ {A = Option (Option Symbol × Option Symbol)} none
                    (some (some symbol1, some symbol2)) =
                  rw (n, r, find_symbols) at e in
                cc)
            | inr (loc, r) ↦
                let here : ◌≡◌ {A = Option (Option Symbol × Option Symbol)}
                    (some (lookup_by_location p1.symtab loc, lookup_by_location p2.symtab loc))
                    (some (some symbol1, some symbol2)) =
                  rw (n, r, r, find_symbols) at e in
                let (l1, l2) = pair_eq here in inr (λ z. ground arith, loc, r, l1, l2)
          ]
        ]

    Names-find_symbols :
        (arg : String) (symbol1 symbol2 : Symbol)
        → Names arg symbol1 symbol2
        → find_symbols set p1 p2 arg ≡ some (some symbol1, some symbol2)
    unfolding find_symbols
    Names-find_symbols arg symbol1 symbol2 h =
        let vma = set.atol arg % u32_mod in
        elim h [
          | inl (z, n1, n2) ↦
              let t : (vma == 0) ≡ true = ground arith in rw (t, n1, n2, find_symbols) refl
          | inr (nz, loc, r, l1, l2) ↦
              let f : (vma == 0) ≡ false = ground arith in rw (f, r, r, l1, l2, find_symbols) refl
        ]

    both_found :
        (arg : String) (args : List String)
        → check_functions set p1 p2 (arg ∷ args) ≡ ok 0
        → (symbol1 : Symbol) × (symbol2 : Symbol) × (find_symbols set p1 p2 arg
            ≡ some (some symbol1, some symbol2))
          × ((compare_flows set p1 p2 symbol1 symbol2
                >>= (λ equal. if equal then check_functions set p1 p2 args else ok 23))
              ≡ ok 0)
    unfolding check_functions
    both_found arg args e = elim (Option-cases (find_symbols set p1 p2 arg)) [
      | inl n ↦ absurd (
          let no : ◌≡◌ {A = Outcome ℕ} (ok 22) (ok 0) = rw (n, check_functions) at e in
          ground arith)
      | inr (found, f) ↦ elim (Option-cases found.0) [
        | inl n ↦ absurd (
            let no : ◌≡◌ {A = Outcome ℕ} (ok 22) (ok 0) = rw (f, n, check_functions) at e in
            ground arith)
        | inr (symbol1, f1) ↦ elim (Option-cases found.1) [
          | inl n ↦ absurd (
              let no : ◌≡◌ {A = Outcome ℕ} (ok 22) (ok 0) = rw (f, f1, n, check_functions) at e in
              ground arith)
          | inr (symbol2, f2) ↦
              (symbol1, symbol2, f ∙ ap some (cc), rw (f, f1, f2, check_functions) at e)
        ]
      ]
    ]

    pub check_functions_iff :
        (args : List String) → (check_functions set p1 p2 args ≡ ok 0) ↔ AllAlike args
    unfolding check_functions
    check_functions_iff [] = (λ e. tt, λ h. refl)
    check_functions_iff (arg ∷ args) =
        let rest = check_functions_iff args in
        (
          λ e.
              let (symbol1, symbol2, found, e1) = both_found arg args e in
              let (equal, run, e2) = bind-eq-ok (compare_flows set p1 p2 symbol1 symbol2) _ e1 in
              let (t, e3) = equal_passes equal (check_functions set p1 p2 args) e2 in
              (
                (
                  symbol1,
                  symbol2,
                  find_symbols-Names arg symbol1 symbol2 found,
                  (compare_flows_iff symbol1 symbol2).0 (run ∙ ap ok t),
                ),
                rest.0 e3,
              ),
          λ h.
              let (symbol1, symbol2, names, alike) = h.0 in
              rw
                (
                  Names-find_symbols arg symbol1 symbol2 names,
                  (compare_flows_iff symbol1 symbol2).1 alike,
                  ◌>>=◌,
                  check_functions,
                )
                (rest.1 h.1),
        )
      where
        equal_passes :
            (b : Bool) (r : Outcome ℕ)
            → ◌≡◌ {A = Outcome ℕ} (if b then r else ok 23) (ok 0)
            → (b ≡ true) × (r ≡ ok 0)
        equal_passes true r e = (refl, e)
        equal_passes false r e = absurd (ground arith)

-- For two project files that exist and are read, and at least one further argument, `cli_checkflow`
-- exits with code 0, within the bounds of the model, exactly when each of those arguments names a symbol
-- in both programs for which the two analyses give functions with the same flow: as many blocks and, for
-- each block, the same successors and the same sinks. An argument names the symbols of its name or, if it
-- is a number, those at the location of the address, which is looked up in the first program for both.
-- Going through a set of nodes is to give no others; the data flow graphs are not assumed acyclic.
pub cli_checkflow_iff :
    (set : Setting) (file1 file2 arg : String) (args : List String) (p1 p2 : ProgramLoader)
    → Iterates set.dis.iterate
    → set.is_regular_file file1 ≡ true
    → set.is_regular_file file2 ≡ true
    → set.open_project file1 ≡ ok p1
    → set.open_project file2 ≡ ok p2
    → (cli_checkflow set (file1 ∷ file2 ∷ arg ∷ args) ≡ ok 0) ↔ AllAlike set p1 p2 (arg ∷ args)
unfolding cli_checkflow
cli_checkflow_iff set file1 file2 arg args p1 p2 iterates regular1 regular2 opened1 opened2 =
    rw (regular1, regular2, opened1, opened2, ◌>>=◌, cli_checkflow)
      (check_functions_iff set p1 p2 iterates (arg ∷ args))
