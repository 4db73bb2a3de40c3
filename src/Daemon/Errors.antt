-- ===== src/Daemon/Errors.antt =====
-- qa/daemon_event_contract_check.py: what `validate` raises, where `main` catches `ContractError` only.
use exasphere.World.{World, too_long, too_deep, Strict, parsed}

-- The parser stays within the interpreter's limits: no integer of too many digits, and no nesting that
-- is too deep. What it makes of the text is otherwise free, a `JSONDecodeError` and a constant included.
abbrev pub WithinLimits : Strict → Type 0
WithinLimits (parsed (too_long exc)) = ⊥
WithinLimits (parsed (too_deep exc)) = ⊥
WithinLimits _ = Unit
