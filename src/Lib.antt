-- ===== src/Lib.antt =====
-- Verification of the native core of tensora: the C++ library under native/src that the Dart
-- packages call through the C interface of native/include/tensora.h.
--
-- The parts and how they interact. A caller holds 64-bit handles. Each exported function of
-- native/src/c_api.cc runs under a guard that turns exceptions and statuses into a code and an error
-- text; it finds the tensor behind a handle in the handle registry, asks the dispatcher for the
-- backend of the tensor's device, runs the backend's operation, and registers the result. A tensor
-- is a shape, strides and an offset over a storage that its views share, with a version counter that
-- they share too. The CPU backend records each differentiable result as a node of a graph, and
-- backward walks that graph from a scalar loss, checks that no saved tensor was modified since, and
-- accumulates gradients in the leaves.
--
-- The files. A definition is named as the function it translates, in snake case; a folder holds
-- what belongs to the file of its name.
--   Core        native/src/core: status.h and status.cc (Core/Status), allocation_guard.h
--               (Core/Guard), abi_guard.h with the thread's error text (Core/Abi), integer_math.h
--               (Core/IntegerMath), and the printing of numbers in messages (Core/Text).
--   Shape       native/src/tensor/shape.h and shape.cc: ValidateShape and SameShape. Shape/Product,
--               Shape/Scan and Shape/Strides are about its loops, Shape/Validate and Shape/Edges
--               about the function.
--   Storage     native/src/memory/tensor_storage.h, cpu_storage.h and the copy of cpu_storage.cc, with its
--               counter of live bytes (Storage/Live).
--   Tensor      native/src/tensor/tensor.h and tensor.cc: layout and CopyToHostF32.
--   Registry    native/src/runtime/handle_registry.h, handle_registry.cc, handle_registry_internal.h.
--   Float       the float32 and double operations that the code uses.
--   Steps       steps on a state that return a value, a status, an exception or nothing defined, and what
--               such steps leave of the state (Steps/Frame).
--   Heap        the objects that C++ shares by shared_ptr, and the steps of code that works on them.
--   Memory      the functions of native/src/memory/cpu_storage.cc that allocate.
--   Backend     native/src/backends/cpu/cpu_backend.cc: the arithmetic loops (Backend/Kernels) and
--               the operations (Backend/Cpu), with their views (Backend/Views).
--   Autograd    native/src/autograd/autograd.h: access to values (Values), recording and traversal
--               (Graph), the arithmetic of gradients (Gradients), the cases of ApplyNode (Apply and
--               Losses), Backward (Backward), and what is shown of them (Topology, Order, Versions,
--               Aliases, Matmul, Layout).
--   Runtime     native/src/runtime/dispatcher.cc and device_codec.cc, and what they accept
--               (Runtime/Devices).
--   Api         native/src/c_api.cc: the guarded functions (Create, Query, Operations), over a world
--               of heap and registry.
--   Training    native/src/training in the core build. training_bridge_stub.cc: Transfer, Activations,
--               Losses, Linear, Modules, Optimizer, and the checkpoint files (Bytes, Checkpoint);
--               nn_v2_runtime.h: Activations; nn_v2_optimizer.h: ParameterOptimizers, with Step and
--               Update for the step that both kinds of optimizer take; nn_v2_state.h and
--               nn_v2_parameter_control.h: Assign. State has the process that they work on.
--   TrainingApi native/src/training/training_c_api.cc (Tensors, Modules, Optimizers).
--   Inference   native/src/inference. onnx_policy.h is in Inference itself; inference_bridge.h: Bridge, a
--               record of operations that the C interface takes; inference_bridge_stub.cc: Stub;
--               inference_bridge_onnx.cc: Runtime (what it uses of ONNX Runtime), Providers, Sessions,
--               Running, and Onnx for the whole bridge. Resolution, Agreement, Profiling, Inputs and
--               Registries are about them.
--   InferenceApi native/src/inference/inference_c_api.cc, with Run for ts_onnx_session_run.
--   Torch       the build with TENSORA_WITH_TORCH: native/src/training/torch_storage.cc (Storage),
--               torch_backend.h and torch_backend.cc (Devices and Backend), training_bridge_torch.cc
--               (Bridge, Modules and Optimizers), the identities and the assignment of Torch tensors of
--               nn_v2_state.h (Identity and Assign), and what they use of libtorch (Library and Nn).
--               Mapping, Wrapping, Bridge/Leaves, Modules/Parameters, Optimizers/Rates, Identity/Distinct,
--               Identity/Sound, Assign/Memory and Assign/Rollback are about them.
--   Prelude     lists, integers, Boolean tests and loops that the parts share.
--   Tests       runs of the model at concrete inputs.
--
-- How the code is modelled.
--   * The build is the core one, where TENSORA_WITH_TORCH is not defined, but for Torch and the bridge to
--     ONNX Runtime; size_t has 64 bits.
--   * A w-bit integer is a natural number with its wrap-around written out; a signed entry of a
--     shape is an integer. A pointer is an Option, with none for null. A pointer argument that only
--     receives a result is an Output, and the result is the value of the function; an array that is
--     only read is a function from indices.
--   * A shared_ptr is the number of its object in a list of the heap that only grows, so lifetimes
--     are not modelled there, and Share succeeds. Every recorded parent exists.
--   * The allocator is a function that answers each guarded request; an allocation outside an
--     AllocationGuard succeeds. What C++ leaves undefined is the result undefined, but an unchecked
--     read of a vector past its end gives zero.
--   * A mutex that a function holds throughout makes it one step; concurrent calls are a sequence of
--     steps. The float and double operations and the random engine are parameters with no laws; the
--     bits of a float are a parameter too, and where they matter a hypothesis says that they are 32
--     and determine the float.
--   * A file is the list of its bytes under the bytes of its name, and a scalar is written as a
--     little-endian host has it. How many bytes a file takes, and whether a flush succeeds, is part
--     of the process, so that a save may fail at any byte.
--   * Recursion is structural. The printing of a number has room for 20 digits, which every 64-bit
--     number fits in. The traversal of the graph is as deep as there are tensors, plus one: a deeper
--     call would visit a tensor again.
--   * ONNX Runtime is a parameter: a record of its calls, each of which changes a state of its own and
--     answers or throws. An Ort::Exception that a try block catches is the status that its handler
--     makes of it, so a call names its handlers. A string is its text, whose size is that of UTF-8.
--   * libtorch is a parameter too: its tensors, modules, optimizers and its state are any types, and each
--     of its calls gives a value or a c10::Error; outside a GuardTorch the error is thrown on. A tensor
--     of libtorch names its contents, which its state has, so that a module and a tensor made of its
--     parameter share them. The Torch storage of a tensor is in the heap as one of another kind, which
--     gives the copy to the host that libtorch made when it was wrapped; the tensor that it owns is in a
--     list beside the heap.
--
-- Not modelled: the branches for Torch tensors of the dispatcher, of nn_v2_optimizer.h, of nn_v2_runtime.h
-- and of nn_v2_parameter_control.h, and how the C interface of a Torch build calls its bridge; the Dart
-- packages, the tests, the benchmarks and the build scripts.
pub mod Api
pub mod Autograd
pub mod Backend
pub mod Core
pub mod Float
pub mod Heap
pub mod Inference
pub mod InferenceApi
pub mod Memory
pub mod Prelude
pub mod Registry
pub mod Runtime
pub mod Shape
pub mod Steps
pub mod Storage
pub mod Tensor
pub mod Tests
pub mod Torch
pub mod Training
pub mod TrainingApi
