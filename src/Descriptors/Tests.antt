-- ===== src/Descriptors/Tests.antt =====
-- The theorems about the descriptor tables at concrete addresses.
use vitr_os.Base.{ℕ, ◌≡◌, none, false, arith}
use vitr_os.Descriptors.{Handlers, init_idt, new_idt}
use vitr_os.Descriptors.Decode.{AreAddresses, gate_of, kernel_gate, is_handled, init_idt-gates}

abbrev handlers : Handlers
handlers = record {
  divide_error = 0xFFFF_8000_0001_0000;
  debug_exception = 0xFFFF_8000_0001_0100;
  breakpoint = 0xFFFF_8000_0001_0200;
  invalid_opcode = 0xFFFF_8000_0001_0300;
  double_fault = 0xFFFF_8000_0001_0400;
  general_protection_fault = 0xFFFF_8000_0001_0500;
  page_fault = 0xFFFF_8000_0001_0600;
  timer_interrupt = 0xFFFF_8000_0001_0700;
}

handlers-AreAddresses : AreAddresses handlers
handlers-AreAddresses = record {
  divide_error = omega arith;
  debug_exception = omega arith;
  breakpoint = omega arith;
  invalid_opcode = omega arith;
  double_fault = omega arith;
  general_protection_fault = omega arith;
  page_fault = omega arith;
  timer_interrupt = omega arith;
}

init_idt-gates_example :
    (gate_of (init_idt handlers new_idt 0) ≡ kernel_gate 0xFFFF_8000_0001_0000 0)
    × (gate_of (init_idt handlers new_idt 1) ≡ kernel_gate 0xFFFF_8000_0001_0100 0)
    × (gate_of (init_idt handlers new_idt 3) ≡ kernel_gate 0xFFFF_8000_0001_0200 0)
    × (gate_of (init_idt handlers new_idt 6) ≡ kernel_gate 0xFFFF_8000_0001_0300 0)
    × (gate_of (init_idt handlers new_idt 8) ≡ kernel_gate 0xFFFF_8000_0001_0400 1)
    × (gate_of (init_idt handlers new_idt 13) ≡ kernel_gate 0xFFFF_8000_0001_0500 0)
    × (gate_of (init_idt handlers new_idt 14) ≡ kernel_gate 0xFFFF_8000_0001_0600 0)
    × (gate_of (init_idt handlers new_idt 32) ≡ kernel_gate 0xFFFF_8000_0001_0700 0)
    × ((v : ℕ) → is_handled v ≡ false → gate_of (init_idt handlers new_idt v) ≡ none)
init_idt-gates_example = init_idt-gates handlers handlers-AreAddresses
