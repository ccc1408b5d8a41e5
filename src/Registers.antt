-- ===== src/Registers.antt =====
-- The callbacks by which XED asks for the registers of an address: watchpointRegisterValueCallback of
-- kvmTest/src/agent/kvmAgent/decoder.cpp and kvmTest/src/agent/nativeAgent/decoder.cpp.
use kognizance_tool.Prelude.{ℕ, ◌/◌, ◌%◌, ◌^◌, Option, none, some}

-- The registers that the callbacks tell apart. The others are `other_register`.
pub data Register : Type 0 where
  rax eax ax al ah rcx ecx cx ch rdx edx dx dh rbx ebx bx bh rsp esp sp rbp ebp bp rsi esi si rdi
        edi di r8 r8d r8w r9 r9d r9w r10 r10d r10w r11 r11d r11w r12 r12d r12w r13 r13d r13w r14
        r14d r14w r15 r15d r15w eflags rip eip ip ds es ss cs fs gs :
      Register
  other_register : Register

-- The registers of the guest's processor, or of a signal's context. The latter keeps three segments
-- in one word.
pub record Registers : Type 0 where
  pub reg_rax : ℕ
  pub reg_rcx : ℕ
  pub reg_rdx : ℕ
  pub reg_rbx : ℕ
  pub reg_rsp : ℕ
  pub reg_rbp : ℕ
  pub reg_rsi : ℕ
  pub reg_rdi : ℕ
  pub reg_r8 : ℕ
  pub reg_r9 : ℕ
  pub reg_r10 : ℕ
  pub reg_r11 : ℕ
  pub reg_r12 : ℕ
  pub reg_r13 : ℕ
  pub reg_r14 : ℕ
  pub reg_r15 : ℕ
  pub reg_rflags : ℕ
  pub reg_rip : ℕ
  pub cs_gs_fs : ℕ

-- A value, the error flag, or the end of the process in an assertion or at the null context.
pub data RegisterRead : Type 0 where
  value : ℕ → RegisterRead
  refused aborted : RegisterRead

-- The KVM agent's, with the answer of kvm_get_regs.
unfoldable pub guest_register_value : Registers → Register → RegisterRead
guest_register_value rs rax = value rs.reg_rax
guest_register_value rs eax = value rs.reg_rax
guest_register_value rs ax = value rs.reg_rax
guest_register_value rs al = value rs.reg_rax
guest_register_value rs ah = aborted
guest_register_value rs rcx = value rs.reg_rcx
guest_register_value rs ecx = value rs.reg_rcx
guest_register_value rs cx = value rs.reg_rcx
guest_register_value rs ch = aborted
guest_register_value rs rdx = value rs.reg_rdx
guest_register_value rs edx = value rs.reg_rdx
guest_register_value rs dx = value rs.reg_rdx
guest_register_value rs dh = aborted
guest_register_value rs rbx = value rs.reg_rbx
guest_register_value rs ebx = value rs.reg_rbx
guest_register_value rs bx = value rs.reg_rbx
guest_register_value rs bh = aborted
guest_register_value rs rsp = value rs.reg_rsp
guest_register_value rs esp = value rs.reg_rsp
guest_register_value rs sp = value rs.reg_rsp
guest_register_value rs rbp = value rs.reg_rbp
guest_register_value rs ebp = value rs.reg_rbp
guest_register_value rs bp = value rs.reg_rbp
guest_register_value rs rsi = value rs.reg_rsi
guest_register_value rs esi = value rs.reg_rsi
guest_register_value rs si = value rs.reg_rsi
guest_register_value rs rdi = value rs.reg_rdi
guest_register_value rs edi = value rs.reg_rdi
guest_register_value rs di = value rs.reg_rdi
guest_register_value rs r8 = value rs.reg_r8
guest_register_value rs r8d = value rs.reg_r8
guest_register_value rs r8w = value rs.reg_r8
guest_register_value rs r9 = value rs.reg_r9
guest_register_value rs r9d = value rs.reg_r9
guest_register_value rs r9w = value rs.reg_r9
guest_register_value rs r10 = value rs.reg_r10
guest_register_value rs r10d = value rs.reg_r10
guest_register_value rs r10w = value rs.reg_r10
guest_register_value rs r11 = value rs.reg_r11
guest_register_value rs r11d = value rs.reg_r11
guest_register_value rs r11w = value rs.reg_r11
guest_register_value rs r12 = value rs.reg_r12
guest_register_value rs r12d = value rs.reg_r12
guest_register_value rs r12w = value rs.reg_r12
guest_register_value rs r13 = value rs.reg_r13
guest_register_value rs r13d = value rs.reg_r13
guest_register_value rs r13w = value rs.reg_r13
guest_register_value rs r14 = value rs.reg_r14
guest_register_value rs r14d = value rs.reg_r14
guest_register_value rs r14w = value rs.reg_r14
guest_register_value rs r15 = value rs.reg_r15
guest_register_value rs r15d = value rs.reg_r15
guest_register_value rs r15w = value rs.reg_r15
guest_register_value rs eflags = value rs.reg_rflags
guest_register_value rs rip = value rs.reg_rip
guest_register_value rs eip = value rs.reg_rip
guest_register_value rs ip = value rs.reg_rip
guest_register_value rs ds = aborted
guest_register_value rs es = aborted
guest_register_value rs ss = aborted
guest_register_value rs _ = refused

-- The native agent's, with a context.
unfoldable pub context_register_value : Registers → Register → RegisterRead
context_register_value rs rax = value rs.reg_rax
context_register_value rs eax = value rs.reg_rax
context_register_value rs ax = value rs.reg_rax
context_register_value rs al = value rs.reg_rax
context_register_value rs ah = aborted
context_register_value rs rcx = value rs.reg_rcx
context_register_value rs ecx = value rs.reg_rcx
context_register_value rs cx = value rs.reg_rcx
context_register_value rs ch = aborted
context_register_value rs rdx = value rs.reg_rdx
context_register_value rs edx = value rs.reg_rdx
context_register_value rs dx = value rs.reg_rdx
context_register_value rs dh = aborted
context_register_value rs rbx = value rs.reg_rbx
context_register_value rs ebx = value rs.reg_rbx
context_register_value rs bx = value rs.reg_rbx
context_register_value rs bh = aborted
context_register_value rs rsp = value rs.reg_rsp
context_register_value rs esp = value rs.reg_rsp
context_register_value rs sp = value rs.reg_rsp
context_register_value rs rbp = value rs.reg_rbp
context_register_value rs ebp = value rs.reg_rbp
context_register_value rs bp = value rs.reg_rbp
context_register_value rs rsi = value rs.reg_rsi
context_register_value rs esi = value rs.reg_rsi
context_register_value rs si = value rs.reg_rsi
context_register_value rs rdi = value rs.reg_rdi
context_register_value rs edi = value rs.reg_rdi
context_register_value rs di = value rs.reg_rdi
context_register_value rs r8 = value rs.reg_r8
context_register_value rs r8d = value rs.reg_r8
context_register_value rs r8w = value rs.reg_r8
context_register_value rs r9 = value rs.reg_r9
context_register_value rs r9d = value rs.reg_r9
context_register_value rs r9w = value rs.reg_r9
context_register_value rs r10 = value rs.reg_r10
context_register_value rs r10d = value rs.reg_r10
context_register_value rs r10w = value rs.reg_r10
context_register_value rs r11 = value rs.reg_r11
context_register_value rs r11d = value rs.reg_r11
context_register_value rs r11w = value rs.reg_r11
context_register_value rs r12 = value rs.reg_r12
context_register_value rs r12d = value rs.reg_r12
context_register_value rs r12w = value rs.reg_r12
context_register_value rs r13 = value rs.reg_r13
context_register_value rs r13d = value rs.reg_r13
context_register_value rs r13w = value rs.reg_r13
context_register_value rs r14 = value rs.reg_r14
context_register_value rs r14d = value rs.reg_r14
context_register_value rs r14w = value rs.reg_r14
context_register_value rs r15 = value rs.reg_r15
context_register_value rs r15d = value rs.reg_r15
context_register_value rs r15w = value rs.reg_r15
context_register_value rs eflags = value rs.reg_rflags
context_register_value rs rip = value rs.reg_rip
context_register_value rs eip = value rs.reg_rip
context_register_value rs ip = value rs.reg_rip
context_register_value rs ds = aborted
context_register_value rs es = aborted
context_register_value rs ss = aborted
context_register_value rs cs = value (rs.cs_gs_fs % 2 ^ 16)
context_register_value rs fs = value (rs.cs_gs_fs / 2 ^ 32 % 2 ^ 16)
context_register_value rs gs = value (rs.cs_gs_fs / 2 ^ 16 % 2 ^ 16)
context_register_value rs other_register = refused

-- A register that needs no context.
unfoldable pub native_register_value : Option Registers → Register → RegisterRead
native_register_value (some rs) r = context_register_value rs r
native_register_value none other_register = refused
native_register_value none _ = aborted
