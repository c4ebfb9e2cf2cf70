-- ===== src/ControlFlow/Graph.antt =====
-- include/ppc2cpp/control_flow/ControlFlowGraph.hpp. A search gives `none` for the source's -1, and
-- so does an operation whose result says that it made no block.
pub mod Blocks
pub mod Edges
pub mod Edit
pub mod Grows
pub mod Spans
use ppc2cpp.Prelude.{
  ℕ, zero, suc, ◌+◌, Bool, true, false, not, ◌&&◌, Option, none, some, List, [], ◌∷◌, ◌++◌, ◌==◌,
  leb, if◌then◌else◌, is_some, length, get_or, modify,
}

pub data BlockType : Type 0 where
  internal external runtime : BlockType

abbrev pub eq_type : BlockType → BlockType → Bool
eq_type internal internal = true
eq_type external external = true
eq_type runtime runtime = true
eq_type _ _ = false

pub record BasicBlock : Type 0 where
  pub start : ℕ
  pub end : ℕ
  pub block_type : BlockType
  pub is_exit : Bool
  pub ends_in_call : Bool
  pub ends_in_tail_call : Bool

-- `BasicBlock(start)` and `BasicBlock(blockType, start)`
abbrev pub new_block : BlockType → ℕ → BasicBlock
new_block t start = record {
  start = start;
  end = start;
  block_type = t;
  is_exit = false;
  ends_in_call = false;
  ends_in_tail_call = false;
}

pub record PsEntry : Type 0 where
  pub pred : List ℕ
  pub succ : List ℕ

abbrev pub empty_entry : PsEntry
empty_entry = record { pred = []; succ = [] }

pub record ControlFlowGraph : Type 0 where
  pub blocks : List BasicBlock
  pub ps_table : List PsEntry

abbrev pub empty : ControlFlowGraph
empty = record { blocks = []; ps_table = [] }

unfoldable pub init : ControlFlowGraph → ControlFlowGraph
init g = record {
  blocks = g.blocks ++ new_block internal 0 ∷ [];
  ps_table = g.ps_table ++ empty_entry ∷ [];
}

abbrev pub block_at : ControlFlowGraph → ℕ → BasicBlock
block_at g i = get_or g.blocks i (new_block internal 0)

abbrev pub entry_at : ControlFlowGraph → ℕ → PsEntry
entry_at g i = get_or g.ps_table i empty_entry

-- The position, counted from i, of the first block that passes.
unfoldable pub find_from : (BasicBlock → Bool) → ℕ → List BasicBlock → Option ℕ
find_from p i [] = none
find_from p i (b ∷ bs) = if p b then some i else find_from p (suc i) bs

unfoldable pub find_block_by_insn_idx : ControlFlowGraph → ℕ → Option ℕ
unfolding find_from
find_block_by_insn_idx g idx = find_from (λ b. leb b.start idx && leb idx b.end) 0 g.blocks

unfoldable pub find_block_by_position : ControlFlowGraph → ℕ → BlockType → Option ℕ
unfolding find_from
find_block_by_position g target t =
    find_from (λ b. b.start == target && eq_type b.block_type t) 0 g.blocks

unfoldable pub find_internal_block_by_position : ControlFlowGraph → ℕ → Option ℕ
unfolding find_block_by_position
find_internal_block_by_position g target = find_block_by_position g target internal

-- The flags that the analysis sets: `endsInCall`, all three for a tail call, or `isExit`.
pub data Mark : Type 0 where
  call tail_call exit : Mark

abbrev pub apply_mark : Mark → BasicBlock → BasicBlock
apply_mark call b = record b { ends_in_call = true }
apply_mark tail_call b = record b { ends_in_call = true; ends_in_tail_call = true; is_exit = true }
apply_mark exit b = record b { is_exit = true }

unfoldable pub mark : Mark → ControlFlowGraph → ℕ → ControlFlowGraph
mark m g i = record g { blocks = modify g.blocks i (apply_mark m) }

-- `blocks[i].end = pos`
abbrev pub set_end : List BasicBlock → ℕ → ℕ → List BasicBlock
set_end bs i pos = modify bs i (λ b. record b { end = pos })

-- `psTable[from].succ.push_back(to)` and `psTable[to].pred.push_back(from)`
abbrev pub link : List PsEntry → ℕ → ℕ → List PsEntry
link ps from to =
    modify (modify ps from (λ e. record e { succ = e.succ ++ to ∷ [] })) to
      (λ e. record e { pred = e.pred ++ from ∷ [] })

-- A new block at the end of the vector, linked behind the origin.
abbrev pub append_block : ControlFlowGraph → ℕ → ℕ → BasicBlock → ControlFlowGraph
append_block g origin branch_pos b = record {
  blocks = set_end g.blocks origin branch_pos ++ b ∷ [];
  ps_table = link (g.ps_table ++ empty_entry ∷ []) origin (length g.blocks);
}

-- Also where the block exists an entry is pushed to the table.
unfoldable pub try_create_successor_internal :
    ControlFlowGraph → ℕ → ℕ → ℕ → ControlFlowGraph × Option ℕ
unfolding find_internal_block_by_position
try_create_successor_internal g origin branch_pos target =
    elim (find_internal_block_by_position (record g { blocks = set_end g.blocks origin branch_pos })
      target) [
        | some existing ↦ (
          record {
            blocks = set_end g.blocks origin branch_pos;
            ps_table = link (g.ps_table ++ empty_entry ∷ []) origin existing;
          },
          none,
        )
        | none ↦
            (append_block g origin branch_pos (new_block internal target), some (length g.blocks))
      ]

unfoldable pub create_successor_external : ControlFlowGraph → ℕ → ℕ → ControlFlowGraph
create_successor_external g origin branch_pos =
    append_block g origin branch_pos (new_block external branch_pos)

unfoldable pub create_successor_runtime : ControlFlowGraph → ℕ → ℕ → ControlFlowGraph
create_successor_runtime g origin branch_pos =
    append_block g origin branch_pos (new_block runtime branch_pos)

unfoldable pub create_successor_fallthrough : ControlFlowGraph → ℕ → ℕ → ℕ → ControlFlowGraph
create_successor_fallthrough g origin pos fallthrough = record {
  blocks = set_end g.blocks origin pos;
  ps_table = link g.ps_table origin fallthrough;
}

unfoldable pub any_not_internal : ControlFlowGraph → List ℕ → Bool
any_not_internal g [] = false
any_not_internal g (s ∷ rest) =
    if not (eq_type (block_at g s).block_type internal) then true else any_not_internal g rest

unfoldable pub has_external_successor : ControlFlowGraph → ℕ → Bool
unfolding any_not_internal
has_external_successor g i = any_not_internal g (entry_at g i).succ
