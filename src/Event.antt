-- ===== src/Event.antt =====
-- The data of a sample or a trap: kvmTest/includes/platform/context.hpp. Pointers to events and
-- frames are modelled by their values. Names of methods and files are lists of code points.
use kognizance_tool.Prelude.{ℕ, Bool, List, ◌==◌, ◌&&◌}

pub data AccessType : Type 0 where
  load store load_and_store unknown : AccessType

pub data FloatType : Type 0 where
  float16 single double longdouble longbcd elem_unknown : FloatType

pub data AddressSpace : Type 0 where
  kernel_heap kernel_task_stack kernel_irq_stack kernel_nmi_stack kernel_exception_stack user_space
        unknown_space :
      AddressSpace

-- ContextFrame
pub record Frame : Type 0 where
  pub binary_addr : ℕ
  pub src_lineno : ℕ
  pub method_name : List ℕ
  pub source_file : List ℕ

-- `operator==` compares two of the four fields.
unfoldable pub same_frame : Frame → Frame → Bool
same_frame f g = f.binary_addr == g.binary_addr && f.src_lineno == g.src_lineno

pub record Event : Type 0 where
  pub event_id : ℕ
  pub device_file_id : ℕ
  pub context_host : List Frame
  pub context_agent : List Frame
  pub t_id : ℕ
  pub h_t_id : ℕ
  pub p_id : ℕ
  pub h_p_id : ℕ
  pub ip_addr : ℕ
  pub data_addr : ℕ
  pub cpu : ℕ
  pub h_ip_addr : ℕ
  pub h_data_addr : ℕ
  pub h_cpu : ℕ
  pub value_at_event : List ℕ
  pub inst : ℕ
  pub event_time : ℕ
  pub access_type : AccessType
  pub access_length : ℕ
  pub float_type : FloatType
  pub address_space : AddressSpace
  pub fix_skid : Bool
  pub is_fixed : Bool
  pub fixed_ip : ℕ
  pub sample_index : ℕ
