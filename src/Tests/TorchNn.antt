-- ===== src/Tests/TorchNn.antt =====
-- Runs of the model of native/src/training/training_bridge_torch.cc, over lists in place of libtorch's
-- tensors and modules.
use tensora.Float.{Float64}
use tensora.Core.Status.{ok}
use tensora.Storage.{Storage, torch_kind}
use tensora.Tensor.{Tensor, float32, cpu}
use tensora.Registry.{lookup}
use tensora.Registry.Entries.{module_handle, find, same_type}
use tensora.Shape.{validate_shape, scan}
use tensora.Steps.{Result, to_caller}
use tensora.Training.State.{Rates, sgd, adam, adamw}
use tensora.Training.Optimizer.{admit_rates}
use tensora.Torch.Library.{Torch, TorchHost, computed}
use tensora.Torch.Backend.{tensor_to_torch}
use tensora.Torch.Nn.{TorchNn, TorchProcess, linear_state}
use tensora.Torch.Bridge.{torch_with_requires_grad, torch_requires_grad}
use tensora.Torch.Bridge.Leaves.{torch_requires_grad-torch_with_requires_grad}
use tensora.Torch.Identity.{TorchImpls, IdentityState, empty_cache, torch_identity}
use tensora.Torch.Identity.Distinct.{IsSound}
use tensora.Torch.Identity.Sound.{torch_identity_iff}
use tensora.Torch.Modules.{torch_parameter_count, torch_parameter_at}
use tensora.Torch.Modules.Parameters.{torch_parameter_at-parameters}
use tensora.Torch.Optimizers.{admit_sgd, admit_adam}
use tensora.Torch.Optimizers.Rates.{admit_rates_iff}
use tensora.Tests.Kernels.{counting}
use tensora.Tests.Torch.{lists, empty_host}
use tensora.Prelude.{
  arith, get_or, ◌+◌, ◌^◌, ℕ, ◌<◌, ◌==◌, ◌≡◌, ◌↔◌, refl, ap, sym, ◌∙◌, Bool, true, false, none,
  some, List, [], ◌∷◌, pos, get_elem?, ltb, leb, if◌then◌else◌,
}

-- The state of libtorch is the flag of all its tensors.
abbrev flagged : Torch ℕ (List ℕ) ℕ
flagged = record lists {
  get_accelerator = λ r. (computed none, r);
  from_blob_clone = λ values dims r. (computed (5 ∷ 6 ∷ []), r);
}

abbrev flag : Bool → ℕ
flag b = if b then 1 else 0

-- A module is its parameters, an optimizer a number, an archive the parameters that it holds.
abbrev nets : TorchNn ℕ (List ℕ) ℕ (List (List ℕ)) ℕ (List (List ℕ))
nets = record {
  manual_seed = λ seed r. (computed tt, r);
  to_device = λ x device r. (computed x, r);
  clone = λ x r. (computed x, r);
  detach = λ x r. (computed x, r);
  requires_grad = λ x r. r == 1;
  set_requires_grad = λ x b r. (computed tt, flag b);
  backward = λ x r. (computed tt, r);
  grad = λ x r. x;
  relu = λ x r. (computed x, r);
  sigmoid = λ x r. (computed x, r);
  tanh = λ x r. (computed x, r);
  mse_loss = λ x y r. (computed (0 ∷ []), r);
  log_softmax = λ x axis r. (computed x, r);
  sum_over = λ x axis r. (computed x, r);
  mean = λ x r. (computed (0 ∷ []), r);
  negated = λ x r. (computed x, r);
  new_linear = λ ins outs bias r. (computed ((1 ∷ []) ∷ []), r);
  forward = λ n x r. (computed x, r);
  train = λ n b r. (computed tt, r);
  module_to = λ n device r. (computed tt, r);
  parameters = λ n r. n;
  buffers = λ n r. [];
  save = λ n r. (computed n, r);
  save_to = λ archive path r. (computed tt, r);
  load_from = λ path r. (computed [], r);
  load = λ n archive r. (computed tt, r);
  new_sgd = λ xs lr momentum decay r. (computed 1, r);
  new_adam = λ xs lr b c e decay r. (computed 2, r);
  new_adamw = λ xs lr b c e decay r. (computed 3, r);
  zero_grad = λ o r. (computed tt, r);
  step = λ o r. (computed tt, r);
}

sets :
    (x : List ℕ) (b : Bool) (r r' : ℕ)
    → nets.set_requires_grad x b r ≡ (computed tt, r')
    → nets.requires_grad x r' ≡ b
sets x b r r' e = ap (λ c. c.1 == 1) (sym e) ∙ reads b
  where
    reads : (b : Bool) → (flag b == 1) ≡ b
    reads true = refl
    reads false = refl

abbrev two_values : Tensor
two_values = record {
  shape = record { dimensions = pos 2 ∷ []; strides = 1 ∷ []; numel = 2; byte_size = 8 };
  storage = 0;
  dtype = float32;
  device = cpu;
  device_index = pos 0;
  storage_offset = 0;
  version_counter = 0;
  autograd_meta = none;
}

abbrev host : TorchHost ℕ (List ℕ) ℕ
host = record empty_host {
  heap = record empty_host.heap { storages = Storage.cpu (5 ∷ 6 ∷ []) ∷ [] };
}

abbrev leaf_host : TorchHost ℕ (List ℕ) ℕ
leaf_host = (torch_with_requires_grad flagged nets two_values true to_caller host).1

makes_leaf :
    torch_with_requires_grad flagged nets two_values true to_caller host
    ≡ (Result.done 0, leaf_host)
unfolding torch_with_requires_grad validate_shape scan
makes_leaf = refl

torch_requires_grad-torch_with_requires_grad_example :
    (u : Tensor) × (get_elem? leaf_host.heap.tensors 0 ≡ some u)
    × (torch_requires_grad flagged nets u to_caller leaf_host ≡ (Result.done 1, leaf_host))
torch_requires_grad-torch_with_requires_grad_example =
    torch_requires_grad-torch_with_requires_grad flagged nets (λ x r. refl) sets two_values true 0
      host leaf_host makes_leaf

abbrev process : TorchProcess ℕ (List ℕ) ℕ (List (List ℕ)) ℕ
process = record {
  host = host;
  registry = record {
    entries =
        (
          1,
          record {
            type = module_handle;
            refs = 1;
            object = linear_state ((5 ∷ 6 ∷ []) ∷ (7 ∷ []) ∷ []);
          },
        )
        ∷ [];
    next_handle = 2;
  };
}

abbrev shown_process : TorchProcess ℕ (List ℕ) ℕ (List (List ℕ)) ℕ
shown_process = (torch_parameter_at flagged nets 1 1 to_caller process).1

found_linear :
    lookup 1 module_handle process.registry
    ≡ (ok, some (linear_state ((5 ∷ 6 ∷ []) ∷ (7 ∷ []) ∷ [])))
unfolding lookup find same_type
found_linear = refl

shows_bias : torch_parameter_at flagged nets 1 1 to_caller process ≡ (Result.done 0, shown_process)
unfolding torch_parameter_at lookup find same_type validate_shape scan
shows_bias = refl

torch_parameter_at-parameters_example :
    (n : ℕ) × (x : List ℕ) × (t : Tensor) × (torch_parameter_count flagged nets 1 to_caller process
      ≡ (Result.done n, process))
    × (1 < n)
    × (get_elem? ((5 ∷ 6 ∷ []) ∷ (7 ∷ []) ∷ []) 1 ≡ some x)
    × (get_elem? shown_process.host.heap.tensors 0 ≡ some t)
    × (tensor_to_torch flagged t to_caller shown_process.host ≡ (Result.done x, shown_process.host))
torch_parameter_at-parameters_example =
    torch_parameter_at-parameters flagged nets 1 1 0 ((5 ∷ 6 ∷ []) ∷ (7 ∷ []) ∷ []) process
      shown_process found_linear shows_bias

instance abbrev whole : Float64 ℕ ℕ
whole = record {
  zero_d = 0;
  one_d = 10;
  of_float = λ x. x;
  to_float = λ x. x;
  of_count = λ n. n;
  add_d = λ a b. a;
  sub_d = λ a b. a;
  mul_d = λ a b. a;
  div_d = λ a b. a;
  sqrt_d = λ a. a;
  exp_d = λ a. a;
  log_d = λ a. a;
  pow_d = λ a b. a;
  lt_d = ltb;
  le_d = leb;
  is_finite = λ a. ltb a 100;
}

abbrev rates : Rates ℕ
rates = record {
  learning_rate = 3;
  momentum = 9;
  beta1 = 9;
  beta2 = 9;
  epsilon = 1;
  weight_decay = 0;
}

admit_rates_iff_example :
    ((admit_sgd ℕ rates.learning_rate rates.momentum rates.weight_decay host
        ≡ (Result.done tt, host))
      ↔ (admit_rates ℕ sgd rates host ≡ (Result.done tt, host)))
    × ((admit_adam ℕ rates.learning_rate rates.beta1 rates.beta2 rates.epsilon rates.weight_decay
            "adam_create" host
          ≡ (Result.done tt, host))
        ↔ (admit_rates ℕ adam rates host ≡ (Result.done tt, host)))
    × ((admit_adam ℕ rates.learning_rate rates.beta1 rates.beta2 rates.epsilon rates.weight_decay
            "adam_create" host
          ≡ (Result.done tt, host))
        ↔ (admit_rates ℕ adamw rates host ≡ (Result.done tt, host)))
admit_rates_iff_example = admit_rates_iff ℕ rates "adam_create" host

-- Two tensors over Torch storages; the address of one of libtorch is its first value.
abbrev torch_storage : ℕ → Storage ℕ
torch_storage bytes =
    Storage.other torch_kind bytes (λ values capacity written. record {
      status = ok;
      out_values = values;
      out_written = written;
    })

abbrev first_values : TorchImpls (List ℕ) ℕ
first_values = record { address = λ x. get_or x 0 0; expired = λ w r. false }

abbrev before_identities : IdentityState ℕ (List ℕ) ℕ
before_identities = record {
  host = record host {
    heap = record host.heap { storages = torch_storage 8 ∷ torch_storage 4 ∷ [] };
    owned = (0, 5 ∷ 6 ∷ []) ∷ (1, 7 ∷ []) ∷ [];
  };
  cache = empty_cache;
}

abbrev other_values : Tensor
other_values = record two_values { storage = 1 }

abbrev once : IdentityState ℕ (List ℕ) ℕ
once = (torch_identity flagged first_values two_values before_identities).1

abbrev twice : IdentityState ℕ (List ℕ) ℕ
twice = (torch_identity flagged first_values other_values once).1

goes_first :
    tensor_to_torch flagged two_values to_caller before_identities.host
    ≡ (Result.done (5 ∷ 6 ∷ []), before_identities.host)
unfolding tensor_to_torch
goes_first = refl

identity_first :
    torch_identity flagged first_values two_values before_identities ≡ (Result.done (2 ^ 63), once)
unfolding torch_identity
identity_first = refl

goes_second :
    tensor_to_torch flagged other_values to_caller once.host ≡ (Result.done (7 ∷ []), once.host)
unfolding tensor_to_torch torch_identity
goes_second = refl

identity_second :
    torch_identity flagged first_values other_values once ≡ (Result.done (2 ^ 63 + 1), twice)
unfolding torch_identity
identity_second = refl

torch_identity_iff_example :
    IsSound twice.cache × (◌≡◌ {A = ℕ} (2 ^ 63) (2 ^ 63 + 1) ↔ ◌≡◌ {A = ℕ} 5 7)
torch_identity_iff_example =
    torch_identity_iff flagged first_values two_values other_values (5 ∷ 6 ∷ []) (7 ∷ []) (2 ^ 63)
      (2 ^ 63 + 1) before_identities once twice before_identities.host once.host (omega arith, tt)
      goes_first identity_first goes_second identity_second refl
