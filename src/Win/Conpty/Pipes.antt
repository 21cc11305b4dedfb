-- ===== src/Win/Conpty/Pipes.antt =====
-- `createDataServerPipe` and `CreateNamedPipesAndPseudoConsole` of c_src/win/conpty.cc.
use ex_pty.Prelude.{
  ℕ, Bool, true, false, not, Option, none, some, [], ◌++◌, codes, ℤ, negsuc, if◌then◌else◌,
}
use ex_pty.Win.Path.{Wide}
use ex_pty.Win.Conpty.State.{Coord, Event, Api}
use ex_pty.Win.Conpty.Step.{Do, ◌>>=◌, ◌>>◌, give, emit, ask}

-- What the calls have stored: the two ends, the console and the names.
pub record Console : Type 0 where
  pub in_handle : Option ℕ
  pub out_handle : Option ℕ
  pub hpc : Option ℕ
  pub in_name : Wide
  pub out_name : Wide

abbrev pub nothing : Console
nothing = record { in_handle = none; out_handle = none; hpc = none; in_name = []; out_name = [] }

module _ (a : Api) where
  -- The name and the pipe; `none` is INVALID_HANDLE_VALUE. `write` makes the pipe inbound.
  unfoldable pub create_data_server_pipe :
      {T : Type 0} → Bool → Wide → Wide → Do T (Wide × Option ℕ)
  create_data_server_pipe write kind pipe_name = do
    let name = codes "\\\\.\\pipe\\" ++ (pipe_name ++ (codes "-" ++ kind))
    server ← ask (λ h. a.create_pipe h name)
    emit (Event.create_pipe name write server)
    give (name, server)

  -- E_INVALIDARG is 0x80070057.
  abbrev pub e_invalidarg : ℤ
  e_invalidarg = negsuc 0x7ff8ffa8

  -- `outputs` says whether the three pointers are there.
  unfoldable pub create_console : {T : Type 0} → Coord → ℕ → Bool → Wide → Do T (ℤ × Console)
  unfolding create_data_server_pipe
  create_console size flags outputs pipe_name = do
    loaded ← ask a.load_library
    emit (Event.load_library loaded)
    if not loaded then (do code ← ask a.last_error; give (code, nothing)) else (do
      found ← ask a.find_function
      emit (Event.find_function found)
      if not found
          then (do code ← ask a.last_error; give (code, nothing))
          else if not outputs
          then give (e_invalidarg, nothing)
          else (do
            (in_name, input) ← create_data_server_pipe true (codes "in") pipe_name
            elim input [
              | none ↦ (do
                code ← ask a.last_error
                give (code, record nothing { in_name = in_name }))
              | some in_handle ↦ (do
                (out_name, output) ← create_data_server_pipe false (codes "out") pipe_name
                elim output [
                  | none ↦ (do
                    code ← ask a.last_error
                    give (
                      code,
                      record nothing {
                        in_handle = some in_handle;
                        in_name = in_name;
                        out_name = out_name;
                      },
                    ))
                  | some out_handle ↦ (do
                    (code, hpc) ← ask (λ h. a.create_console h size flags)
                    emit (Event.create_console size flags in_handle out_handle code)
                    give (
                      code,
                      record {
                        in_handle = some in_handle;
                        out_handle = some out_handle;
                        hpc = some hpc;
                        in_name = in_name;
                        out_name = out_name;
                      },
                    ))
                ])
            ]))
